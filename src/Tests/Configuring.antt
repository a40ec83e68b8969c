-- ===== src/Tests/Configuring.antt =====
-- A table whose nodes are their own texts.
use lan_send.Base.{
  ℕ, ◌≡◌, refl, ap, ◌∙◌, String, Option, none, some, Bool, true, false, if◌then◌else◌, ◌==◌, Assoc,
  lookup, List, [], ◌∷◌, arith, str_eq,
}
use lan_send.Message.{Bytes}
use lan_send.Settings.{Settings}
use lan_send.Settings.Config.{Toml, init_config, save_config}
use lan_send.Settings.Config.Saved.{KeepsValues, init_config-save_config}
use lan_send.Tests.Trusting.{encode, decode, decode-encode, join, split, split-join}

abbrev flat : Assoc Bytes → List Bytes
flat [] = []
flat (entry ∷ t) = encode entry.0 ∷ entry.1 ∷ flat t

abbrev unflat : List Bytes → Assoc Bytes
unflat [] = []
unflat (k ∷ []) = []
unflat (k ∷ v ∷ rest) = (decode k, v) ∷ unflat rest

unflat-flat : (t : Assoc Bytes) → unflat (flat t) ≡ t
unflat-flat [] = refl
unflat-flat ((k, v) ∷ t) =
    ap (λ x. (x, v) ∷ unflat (flat t)) (decode-encode k) ∙ ap (λ u. (k, v) ∷ u) (unflat-flat t)

abbrev head_of : Bytes → Option ℕ
head_of [] = none
head_of (n ∷ ns) = some n

abbrev flag_of : Bytes → Option Bool
flag_of [] = none
flag_of (n ∷ ns) = some (n == 1)

abbrev toml : Toml
toml = record {
  Node = Bytes;
  parse = λ b. some (unflat (split [] b));
  print = λ t. join (flat t);
  table = λ t. join (flat t);
  integer = λ n. n ∷ [];
  text = encode;
  boolean = λ b. (if b then 1 else 0) ∷ [];
  as_table = λ b. some (unflat (split [] b));
  to_int = head_of;
  to_text = λ b. some (decode b);
  to_bool = flag_of;
}

read_back : (t : Assoc Bytes) → unflat (split [] (join (flat t))) ≡ t
read_back t = ap unflat (split-join (flat t)) ∙ unflat-flat t

flag_back : (b : Bool) → flag_of ((if b then 1 else 0) ∷ []) ≡ some b
flag_back true = refl
flag_back false = refl

keeps : KeepsValues toml
keeps = record {
  parse-print = λ t. (t, ap some (read_back t), λ key. refl);
  as_table-table = λ t. ap some (read_back t);
  to_int-integer = λ n h. refl;
  to_text-text = λ s. ap some (decode-encode s);
  to_bool-boolean = flag_back;
}

abbrev settings : Settings
settings = record { port = 40000; pin_code = "1234"; auto_receive = true; save_dir = "/d" }

abbrev config : Assoc Bytes
config = ("theme", 5 ∷ []) ∷ ("setting", []) ∷ []

init_config-save_config_example :
    (config' : Assoc Bytes) × (init_config toml "/home"
        (save_config toml "/home" true config settings none).1
      ≡ some (config', settings))
    × ((key : String) → str_eq "setting" key ≡ false → lookup key config' ≡ lookup key config)
init_config-save_config_example =
    init_config-save_config toml "/home" keeps config settings none (omega arith)
