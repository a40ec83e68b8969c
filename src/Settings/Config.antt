-- ===== src/Settings/Config.antt =====
-- src/core/util/config.cc: the settings in the file config.toml. The library toml++ is a parameter, and
-- the file is its content, or none where it does not exist. The directory can be created.
pub mod Saved
use lan_send.Base.{
  ℕ, ◌%◌, ◌^◌, String, Option, none, some, Bool, true, false, if◌then◌else◌, Assoc, lookup, assign,
  List, [], ◌∷◌,
}
use lan_send.Message.{Bytes}
use lan_send.Settings.{Settings}

-- toml::parse_file and toml::parse are none where they throw; `print` is operator<<; `as_table` is
-- ref<toml::table>, whose result is not defined where it is none; `to_int`, `to_text` and `to_bool`
-- are value<int>, as a residue modulo 2 ^ 32, value<std::string> and value<bool>.
pub record Toml : Type 1 where
  pub Node : Type 0
  pub parse : Bytes → Option (Assoc Node)
  pub print : Assoc Node → Bytes
  pub table : Assoc Node → Node
  pub integer : ℕ → Node
  pub text : String → Node
  pub boolean : Bool → Node
  pub as_table : Node → Option (Assoc Node)
  pub to_int : Node → Option ℕ
  pub to_text : Node → Option String
  pub to_bool : Node → Option Bool

abbrev pub default_port : ℕ
default_port = 56789

-- value_or of a key, which may be missing or of another type
abbrev pub value_or : {N A : Type 0} → (N → Option A) → String → Assoc N → A → A
value_or read key setting default = elim (lookup key setting) [
  | none ↦ default
  | some node ↦ elim (read node) [ none ↦ default | some a ↦ a ]
]

-- `download_dir` is path::kSystemDownloadDir.
module _ (toml : Toml) (download_dir : String) where
  -- The settings of a table; the port is a std::uint16_t.
  unfoldable pub read_settings : Assoc toml.Node → Settings
  read_settings setting = record {
    port = value_or toml.to_int "port" setting default_port % 2 ^ 16;
    pin_code = value_or toml.to_text "pin-code" setting "";
    auto_receive = value_or toml.to_bool "auto-receive" setting false;
    save_dir = value_or toml.to_text "save-dir" setting download_dir;
  }

  unfoldable pub with_setting : Assoc toml.Node → Assoc toml.Node
  with_setting config = elim (lookup "setting" config) [
    | none ↦ assign "setting" (toml.table []) config
    | some _ ↦ config
  ]

  unfoldable pub load_setting : Assoc toml.Node → Option (Assoc toml.Node × Settings)
  unfolding read_settings with_setting
  load_setting config = elim (lookup "setting" (with_setting config)) [
    | none ↦ none
    | some node ↦ elim (toml.as_table node) [
      | none ↦ none
      | some setting ↦ some (with_setting config, read_settings setting)
    ]
  ]

  -- A file that does not exist is created empty; one that cannot be parsed counts as empty.
  unfoldable pub init_config : Option Bytes → Option (Assoc toml.Node × Settings)
  unfolding load_setting
  init_config file =
      let content : Bytes = elim file [ none ↦ [] | some b ↦ b ] in
      elim (toml.parse content) [
        | some config ↦ load_setting config
        | none ↦ elim (toml.parse []) [ none ↦ none | some config ↦ load_setting config ]
      ]

  unfoldable pub setting_table : Settings → Assoc toml.Node
  setting_table s =
      ("port", toml.integer s.port)
      ∷ ("pin-code", toml.text s.pin_code)
      ∷ ("auto-receive", toml.boolean s.auto_receive)
      ∷ ("save-dir", toml.text s.save_dir)
      ∷ []

  -- The table and the file after the call; the file may not be opened.
  unfoldable pub save_config :
      Bool → Assoc toml.Node → Settings → Option Bytes → Assoc toml.Node × Option Bytes
  unfolding setting_table
  save_config opens config s file =
      if opens
      then (let config' = assign "setting" (toml.table (setting_table s)) config in
          (config', some (toml.print config')))
      else (config, file)
