-- ===== src/Settings/Config/Saved.antt =====
-- SaveConfig, and InitConfig on the file that it wrote.
use lan_send.Base.{
  ℕ, ◌%◌, ◌^◌, ◌<◌, ◌≡◌, refl, ap, ◌∙◌, String, Option, some, Bool, true, false, Assoc, lookup,
  assign, lookup-assign_same, lookup-assign, str_eq, if_false, arith,
}
use lan_send.Message.{Bytes}
use lan_send.Settings.{Settings}
use lan_send.Settings.Config.{
  Toml, read_settings, with_setting, load_setting, init_config, setting_table, save_config,
}

-- What is relied on of toml++: a printed table is read back with the same nodes under the same keys,
-- and a node has the value that it was made of.
pub record KeepsValues (toml : Toml) : Type 0 where
  pub parse-print :
      (t : Assoc toml.Node)
      → (u : Assoc toml.Node) × (toml.parse (toml.print t) ≡ some u)
        × ((key : String) → lookup key u ≡ lookup key t)
  pub as_table-table : (t : Assoc toml.Node) → toml.as_table (toml.table t) ≡ some t
  pub to_int-integer : (n : ℕ) → n < 2 ^ 31 → toml.to_int (toml.integer n) ≡ some n
  pub to_text-text : (s : String) → toml.to_text (toml.text s) ≡ some s
  pub to_bool-boolean : (b : Bool) → toml.to_bool (toml.boolean b) ≡ some b

small_port : (n : ℕ) → n < 2 ^ 16 → n % 2 ^ 16 ≡ n
small_port n h = omega arith

module _ (toml : Toml) (download_dir : String) (law : KeepsValues toml) where
  read-setting_table :
      (s : Settings)
      → s.port < 2 ^ 16
      → read_settings toml download_dir (setting_table toml download_dir s) ≡ s
  unfolding read_settings setting_table lookup
  read-setting_table s fits =
      rw
        (
          read_settings,
          law.to_int-integer s.port (omega arith),
          law.to_text-text s.pin_code,
          law.to_bool-boolean s.auto_receive,
          law.to_text-text s.save_dir,
        )
        (ap (λ n. record s { port = n }) (small_port s.port fits))

  load-saved :
      (u : Assoc toml.Node) (s : Settings)
      → s.port < 2 ^ 16
      → lookup "setting" u ≡ some (toml.table (setting_table toml download_dir s))
      → load_setting toml download_dir u ≡ some (u, s)
  unfolding load_setting with_setting
  load-saved u s fits found =
      let kept : with_setting toml download_dir u ≡ u = rw (with_setting, found) refl in
      let there = ap (lookup "setting") kept ∙ found in
      rw
        (
          load_setting,
          there,
          law.as_table-table (setting_table toml download_dir s),
          kept,
          read-setting_table s fits,
        )
        refl

  -- The settings were saved into the file, which could be opened: whatever stood in the file before,
  -- the next start reads the same settings, and keeps every other key of the table.
  pub init_config-save_config :
      (config : Assoc toml.Node) (s : Settings) (file : Option Bytes)
      → s.port < 2 ^ 16
      → (config' : Assoc toml.Node) × (init_config toml download_dir
            (save_config toml download_dir true config s file).1
          ≡ some (config', s))
        × ((key : String) → str_eq "setting" key ≡ false → lookup key config' ≡ lookup key config)
  unfolding init_config save_config
  init_config-save_config config s file fits =
      let node = toml.table (setting_table toml download_dir s) in
      let r = law.parse-print (assign "setting" node config) in
      let found = r.2 "setting" ∙ lookup-assign_same "setting" node config in
      (
        r.0,
        rw (init_config, r.1) (load-saved r.0 s fits found),
        λ key other.
            r.2 key
            ∙ lookup-assign "setting" key node config
            ∙ if_false (str_eq "setting" key) _ _ other,
      )
