-- ===== src/Tests/PlatformProxy.antt =====
-- The dotenv editor and the takeover of the Gemini tool on a small file (internal/platformproxy).
use coding_switch.Base.{
  ◌-◌, Bool, true, ◌&&◌, [], ◌∷◌, ◌++◌, ltb, if◌then◌else◌, ap, Bool-cases, inl, inr, Option, none,
  some, Bytes, codes, length, take, drop, ok, err, trim_space, trim_left, ◌≡◌, refl, ◌>>=◌,
}
use coding_switch.PlatformProxy.EnvText.{append_env_lines, split_env_lines}
use coding_switch.PlatformProxy.EnvEdit.{
  unclosed_quote, classify, parse_env_assignment, read_env_field, env_effective_value,
  set_env_field, restore_env_field,
}
use coding_switch.PlatformProxy.EnvLine.{parse_head, parse_value}
use coding_switch.PlatformProxy.EnvEdit.Lines.{any-NoBreak}
use coding_switch.PlatformProxy.EnvEdit.Reparse.{IsPlain}
use coding_switch.PlatformProxy.EnvEdit.Restore.{restore-set}
use coding_switch.PlatformProxy.EnvEdit.Other.{set_env_field-other}
use coding_switch.PlatformProxy.Address.{normalize_relay_base_url}
use coding_switch.PlatformProxy.State.{
  Disk, Faults, ProxyState, no_faults, decoded, inactive, saved, load,
}
use coding_switch.PlatformProxy.Gemini.{
  api_key, url_key, env_file, base_url, enable_proxy, disable_proxy,
}
use coding_switch.PlatformProxy.State.Recoded.{recoded}
use coding_switch.PlatformProxy.State.Outcomes.{Unspoilt, Ended}
use coding_switch.PlatformProxy.Gemini.Keeps.{enable_proxy-Unspoilt, disable_proxy-Ended}
use coding_switch.PlatformProxy.Gemini.Usable.{
  UsableDisk, Reached, starts, enables, disables, Reached-Usable,
}
use coding_switch.PlatformProxy.Gemini.Cycle.{enable-disable}

-- The text between the quotes, as `strconv.Unquote` gives it where there is no escape.
abbrev unquote : Bytes → Option Bytes
unquote s = some (take (length s - 2) (drop 1 s))

abbrev doc : Bytes
doc = codes "# mine\nexport GEMINI_API_KEY = \"old\" # key\nA=1\nGOOGLE_GEMINI_BASE_URL=http://x"

abbrev key_line : Bytes
key_line = codes "export GEMINI_API_KEY = \"old\" # key\n"

abbrev url_line : Bytes
url_line = codes "GOOGLE_GEMINI_BASE_URL=http://x"

abbrev token : Bytes
token = codes "portico"

token-IsPlain : IsPlain unquote token
token-IsPlain = record {
  first = b'p';
  others = codes "ortico";
  same = refl;
  no_quote = refl;
  no_space = refl;
  no_return = refl;
  no_break = (refl, (refl, (refl, (refl, (refl, (refl, (refl, tt)))))));
}

read_key : read_env_field unquote doc api_key ≡ ok (key_line ∷ [])
unfolding read_env_field split_env_lines classify parse_env_assignment parse_head parse_value
read_key = refl

read_url : read_env_field unquote doc url_key ≡ ok (url_line ∷ [])
unfolding read_env_field split_env_lines classify parse_env_assignment parse_head parse_value
read_url = refl

effective_key : env_effective_value unquote doc api_key ≡ ok (some (codes "old"))
unfolding env_effective_value split_env_lines classify parse_env_assignment parse_head parse_value
effective_key = refl

set_key :
    set_env_field unquote doc api_key token
    ≡ ok (
        codes "# mine\nexport GEMINI_API_KEY = portico # key\nA=1\nGOOGLE_GEMINI_BASE_URL=http://x")
unfolding set_env_field split_env_lines classify parse_env_assignment parse_head parse_value
set_key = refl

restore-set_example :
    (new : Bytes) × (set_env_field unquote doc api_key token ≡ ok new)
    × (restore_env_field unquote new api_key (key_line ∷ []) ≡ ok doc)
restore-set_example = restore-set unquote doc api_key token key_line [] token-IsPlain read_key

set_env_field-other_example :
    read_env_field unquote
      (codes "# mine\nexport GEMINI_API_KEY = portico # key\nA=1\nGOOGLE_GEMINI_BASE_URL=http://x")
      url_key
    ≡ read_env_field unquote doc url_key
set_env_field-other_example =
    set_env_field-other unquote api_key url_key refl doc token key_line
      (codes "# mine\nexport GEMINI_API_KEY = portico # key\nA=1\nGOOGLE_GEMINI_BASE_URL=http://x")
      [] token-IsPlain read_key set_key

-- An unclosed quote is an error of its own key only.
unclosed_here :
    set_env_field unquote (codes "K='a\nB=1") (codes "K") token ≡ err (unclosed_quote (codes "K"))
unfolding set_env_field split_env_lines classify parse_env_assignment parse_head parse_value
unclosed_here = refl

unclosed_elsewhere :
    set_env_field unquote (codes "K='a\nB=1") (codes "B") token ≡ ok (codes "K='a\nB=portico")
unfolding set_env_field split_env_lines classify parse_env_assignment parse_head parse_value
unclosed_elsewhere = refl

-- An original last line without a line break is joined with a line that was added behind it.
glued :
    restore_env_field unquote (codes "K=portico\nB=1\n") (codes "K") (codes "K=old" ∷ [])
    ≡ ok (codes "K=oldB=1\n")
unfolding restore_env_field split_env_lines classify parse_env_assignment parse_head parse_value
glued = refl

-- A comment that stands right behind a closing quote becomes a part of the value.
swallowed :
    (set_env_field unquote (codes "K=\"a\"#c") (codes "K") token >>= λ new.
    env_effective_value unquote new (codes "K"))
    ≡ ok (some (codes "portico#c"))
unfolding set_env_field env_effective_value split_env_lines classify parse_env_assignment parse_head
    parse_value
swallowed = refl

-- Behind a last line that ends in a carriage return the new assignment is no line of its own.
lost :
    (set_env_field unquote (codes "A=1\r") (codes "K") token >>= λ new.
    env_effective_value unquote new (codes "K"))
    ≡ ok none
unfolding set_env_field env_effective_value split_env_lines classify parse_env_assignment parse_head
    parse_value append_env_lines
lost = refl

abbrev relay : Bytes
relay = codes ":18100"

url-IsPlain : IsPlain unquote (base_url unquote relay)
unfolding normalize_relay_base_url trim_space trim_left
url-IsPlain = record {
  first = b'h';
  others = codes "ttp://127.0.0.1:18100/gemini";
  same = refl;
  no_quote = refl;
  no_space = refl;
  no_return = refl;
  no_break = any-NoBreak (base_url unquote relay) refl;
}

abbrev fresh : Disk
fresh = record { settings = some doc; state = none }

nothing_saved : load no_faults fresh ≡ ok none
unfolding load
nothing_saved = refl

-- Of a text with other bytes than ASCII each such byte becomes U+FFFD.
abbrev is_ascii : Bytes → Bool
is_ascii [] = true
is_ascii (c ∷ s) = ltb c 128 && is_ascii s

abbrev ascii_or_replaced : Bytes → Bytes
ascii_or_replaced [] = []
ascii_or_replaced (c ∷ s) =
    (if ltb c 128 then c ∷ [] else 239 ∷ (191 ∷ (189 ∷ []))) ++ ascii_or_replaced s

ascii_kept : (s : Bytes) → is_ascii s ≡ true → ascii_or_replaced s ≡ s
ascii_kept [] h = refl
ascii_kept (c ∷ s) h = elim (Bool-cases (ltb c 128)) [
  | inl y ↦ rw y (ap (◌∷◌ c) (ascii_kept s (rw y at h)))
  | inr n ↦ absurd (cc (rw n at h))
]

enable-disable_example :
    (on : Disk) × (enable_proxy unquote relay no_faults fresh ≡ (on, none))
    × (disable_proxy unquote relay no_faults
          (record on { state = recoded is_ascii ascii_or_replaced on.state })
        ≡ (record { settings = some doc; state = some (decoded (saved inactive)) }, none))
enable-disable_example =
    enable-disable unquote relay is_ascii ascii_or_replaced doc key_line url_line [] [] none none
      ascii_kept url-IsPlain nothing_saved tt read_key read_url (refl, tt) (refl, tt)

-- The tool's file is locked while the takeover begins.
abbrev locked : Faults
locked = record no_faults { write_settings = true }

enable_proxy-Unspoilt_example : Unspoilt (some doc) (enable_proxy unquote relay locked fresh)
enable_proxy-Unspoilt_example = enable_proxy-Unspoilt unquote relay locked fresh

abbrev taken : Disk
taken = (enable_proxy unquote relay locked fresh).0

disable_proxy-Ended_example : Ended taken (disable_proxy unquote relay locked taken)
disable_proxy-Ended_example = disable_proxy-Ended unquote relay locked taken

run :
    Reached unquote relay
      (disable_proxy unquote relay no_faults (enable_proxy unquote relay locked fresh).0).0
run = disables no_faults (enables locked (starts (some doc)))

Reached-Usable_example :
    UsableDisk unquote relay
      (disable_proxy unquote relay no_faults (enable_proxy unquote relay locked fresh).0).0
Reached-Usable_example = Reached-Usable unquote relay run

abbrev running : ProxyState
running = record {
  version = 1;
  active = true;
  files =
      (env_file, record { existed = true; fields = (api_key, key_line ∷ []) ∷ []; containers = [] })
      ∷ [];
}

abbrev running_disk : Disk
running_disk = record { settings = some doc; state = some (decoded running) }

running_loads : load no_faults running_disk ≡ ok (some running)
unfolding load
running_loads = refl
