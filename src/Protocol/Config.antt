-- ===== src/Protocol/Config.antt =====
-- The settings that a request configures are valid and of the declared sizes.
use scu35_bitcoin_lottery_mi.Base.{
  leb, codes, store_at, length-append, [], ◌++◌, ◌∷◌, drop, ◌+◌, ℕ, ◌%◌, ◌^◌, ◌<◌, ◌≡◌, refl, sym,
  subst, ap, ◌∙◌, Bool, true, Bool-cases, inl, inr, Option, none, some, List, arith, length, Bytes,
  bind-some, ltb, if◌then◌else◌, bytes_eq,
}
use scu35_bitcoin_lottery_mi.Json.{
  JsonType, json_string_type, json_number_type, json_true_type, json_false_type, json_array_type,
  json_other_type, plain, string_found, Found, found, not_found, search_failed, Search, json_string,
  json_u32,
}
use scu35_bitcoin_lottery_mi.Settings.{MinerSettings, settings_valid}
use scu35_bitcoin_lottery_mi.Settings.Record.{IsTyped}
use scu35_bitcoin_lottery_mi.Protocol.{
  parse_mac, ConfigResult, configured, invalid_request, unsupported_command, invalid_settings,
  command_key, configure, mac_key, host_key, worker_key, port_key, password_key, text_in,
  set_fields, config_fields, config_password, config_checked, config_rest, config_command,
  miner_config_parse,
}
use scu35_bitcoin_lottery_mi.Protocol.Fields.{
  Fits, json_string-Fits, parse_mac-Fits, length-text_in, text_in-Bytes,
}

set_fields-IsTyped :
    (port : ℕ) (mac host worker : List ℕ) (current next : MinerSettings)
    → IsTyped current
    → (length mac ≡ 6) × Bytes mac
    → Fits 96 host
    → Fits 128 worker
    → set_fields port mac host worker current ≡ some next
    → IsTyped next × (next.password ≡ current.password)
unfolding set_fields
set_fields-IsTyped port mac host worker current next t (nm, bm) fh fw h =
    elim (Bool-cases (ltb 65535 port)) [
      | inl large ↦
          absurd (clash (sym (ap (λ (b : Bool). if b then none else some made) large) ∙ h))
      | inr small ↦
          let same : made ≡ next =
            cc (sym (ap (λ (b : Bool). if b then none else some made) small) ∙ h) in
          subst (λ (m : MinerSettings). IsTyped m × (m.password ≡ current.password)) same
            (
              record {
                mac_size = nm;
                port_size = omega arith;
                host_size = length-text_in current.host host 96 t.host_size fh;
                worker_size = length-text_in current.worker worker 128 t.worker_size fw;
                password_size = t.password_size;
                mac_bytes = bm;
                host_bytes = text_in-Bytes current.host host 96 t.host_bytes fh;
                worker_bytes = text_in-Bytes current.worker worker 128 t.worker_bytes fw;
                password_bytes = t.password_bytes;
              },
              refl,
            )
    ]
  where
    made : MinerSettings
    made = record current {
      mac = mac;
      port = port % 2 ^ 16;
      host = text_in current.host host;
      worker = text_in current.worker worker;
    }

    clash : ◌≡◌ {A = Option MinerSettings} none (some next) → ⊥
    clash q = cc q

config_fields-IsTyped :
    (lookup : Search) (line : List ℕ) (current next : MinerSettings)
    → IsTyped current
    → config_fields lookup line current ≡ some next
    → IsTyped next × (next.password ≡ current.password)
unfolding config_fields
config_fields-IsTyped lookup line current next t h =
    let (mac_text, _, h1) = bind-some (json_string lookup line mac_key 18) _ next h in
    let (mac, hm, h2) = bind-some (parse_mac mac_text) _ next h1 in
    let (host, hh, h3) = bind-some (json_string lookup line host_key 96) _ next h2 in
    let (worker, hw, h4) = bind-some (json_string lookup line worker_key 128) _ next h3 in
    let (port, _, h5) = bind-some (json_u32 lookup line port_key) _ next h4 in
    set_fields-IsTyped port mac host worker current next t (parse_mac-Fits mac_text mac hm)
      (json_string-Fits lookup line host_key 96 host hh)
      (json_string-Fits lookup line worker_key 128 worker hw) h5

-- A text with a NUL behind it, and the rest of what the array held.
abbrev pub written : List ℕ → List ℕ → List ℕ
written v array = (v ++ (0 ∷ [])) ++ drop (length v + 1) array

text_in-written : (array v : List ℕ) → text_in array v ≡ written v array
unfolding store_at
text_in-written array v =
    ap (λ (n : ℕ). (v ++ (0 ∷ [])) ++ drop n array) (omega (arith, length-append v (0 ∷ [])))

-- What becomes of the password, by what the search for it finds.
abbrev pub PasswordRule : Found → MinerSettings → MinerSettings → Type 0
PasswordRule not_found old next = next.password ≡ old.password
PasswordRule search_failed old next = ⊥
PasswordRule (found v type) old next =
    (type ≡ json_string_type) × (length v < 64) × (next.password ≡ written v old.password)

-- A text is read as it is found.
string_found-same :
    (capacity : ℕ) (v p : List ℕ) (type : JsonType)
    → string_found capacity (found v type) ≡ some p
    → (type ≡ json_string_type) × (p ≡ v)
unfolding string_found
string_found-same capacity v p json_number_type h = absurd (cc h)
string_found-same capacity v p json_true_type h = absurd (cc h)
string_found-same capacity v p json_false_type h = absurd (cc h)
string_found-same capacity v p json_array_type h = absurd (cc h)
string_found-same capacity v p json_other_type h = absurd (cc h)
string_found-same capacity v p json_string_type h = elim (Bool-cases (leb capacity (length v))) [
  | inl long ↦ absurd (no_text (sym (ap (λ (t : Bool). if t then none else checked) long) ∙ h))
  | inr short ↦
      let h' : checked ≡ some p = sym (ap (λ (t : Bool). if t then none else checked) short) ∙ h in
      elim (Bool-cases (plain v)) [
        | inl ok ↦
            let same : some v ≡ some p =
              sym (ap (λ (t : Bool). if t then some v else none) ok) ∙ h' in
            (refl, cc same)
        | inr bad ↦ absurd (no_text (sym (ap (λ (t : Bool). if t then some v else none) bad) ∙ h'))
      ]
]
  where
    checked : Option (List ℕ)
    checked = if plain v then some v else none

    no_text : ◌≡◌ {A = Option (List ℕ)} none (some p) → ⊥
    no_text q = cc q

config_password-IsTyped :
    (lookup : Search) (line : List ℕ) (f : Found) (old next : MinerSettings)
    → lookup line password_key ≡ f
    → IsTyped old
    → config_password lookup line f old ≡ some next
    → IsTyped next × PasswordRule f old next
unfolding config_password Fits json_string
config_password-IsTyped lookup line not_found old next e t h =
    let same : old ≡ next = cc h in
    subst (λ (m : MinerSettings). IsTyped m × (m.password ≡ old.password)) same (t, refl)
config_password-IsTyped lookup line search_failed old next e t h = absurd (cc h)
config_password-IsTyped lookup line (found v type) old next e t h =
    let (p, hp, h1) = bind-some (json_string lookup line password_key 64) _ next h in
    let fits = json_string-Fits lookup line password_key 64 p hp in
    let (is_text, same_text) = string_found-same 64 v p type (ap (string_found 64) (sym e) ∙ hp) in
    let made : MinerSettings = record old { password = text_in old.password p } in
    let same : made ≡ next = cc h1 in
    subst (λ (m : MinerSettings). IsTyped m × PasswordRule (found v type) old m) same
      (
        record {
          mac_size = t.mac_size;
          port_size = t.port_size;
          host_size = t.host_size;
          worker_size = t.worker_size;
          password_size = length-text_in old.password p 64 t.password_size fits;
          mac_bytes = t.mac_bytes;
          host_bytes = t.host_bytes;
          worker_bytes = t.worker_bytes;
          password_bytes = text_in-Bytes old.password p 64 t.password_bytes fits;
        },
        (
          is_text,
          subst (λ (x : List ℕ). length x < 64) same_text fits.0,
          ap (text_in old.password) same_text ∙ text_in-written old.password v,
        ),
      )

config_checked-valid :
    (o : Option MinerSettings) (next : MinerSettings)
    → config_checked o ≡ configured next
    → (o ≡ some next) × (settings_valid next ≡ true)
unfolding config_checked
config_checked-valid none next h = absurd (cc h)
config_checked-valid (some s) next h = elim (Bool-cases (settings_valid s)) [
  | inl ok ↦
      let same : s ≡ next =
        cc (sym (ap (λ (b : Bool). if b then configured s else invalid_settings) ok) ∙ h) in
      (ap some same, ap settings_valid (sym same) ∙ ok)
  | inr bad ↦
      absurd (clash (sym (ap (λ (b : Bool). if b then configured s else invalid_settings) bad) ∙ h))
]
  where
    clash : invalid_settings ≡ configured next → ⊥
    clash q = cc q

config_rest-Configured :
    (lookup : Search) (line : List ℕ) (current next : MinerSettings) (o : Option MinerSettings)
    → config_fields lookup line current ≡ o
    → IsTyped current
    → config_rest lookup line o ≡ configured next
    → (settings_valid next ≡ true)
      × IsTyped next
      × PasswordRule (lookup line password_key) current next
unfolding config_rest
config_rest-Configured lookup line current next none e t h = absurd (cc h)
config_rest-Configured lookup line current next (some made) e t h =
    let (q, ok) =
      config_checked-valid (config_password lookup line (lookup line password_key) made) next h in
    let (t', kept) = config_fields-IsTyped lookup line current made t e in
    let (t'', rule) =
      config_password-IsTyped lookup line (lookup line password_key) made next refl t' q in
    (ok, t'', from_current (lookup line password_key) kept rule)
  where
    from_current :
        (f : Found)
        → made.password ≡ current.password
        → PasswordRule f made next
        → PasswordRule f current next
    from_current not_found k r = r ∙ k
    from_current search_failed k r = r
    from_current (found v type) k (t, n, r) = (t, n, r ∙ ap (written v) k)

config_command-Configured :
    (lookup : Search) (line : List ℕ) (current next : MinerSettings) (o : Option (List ℕ))
    → IsTyped current
    → config_command lookup line current o ≡ configured next
    → (settings_valid next ≡ true)
      × IsTyped next
      × PasswordRule (lookup line password_key) current next
unfolding config_command
config_command-Configured lookup line current next none t h = absurd (cc h)
config_command-Configured lookup line current next (some command) t h =
    elim (Bool-cases (bytes_eq command configure)) [
      | inl same ↦
          config_rest-Configured lookup line current next (config_fields lookup line current) refl t
            (sym (ap (λ (b : Bool). if b then fields else unsupported_command) same) ∙ h)
      | inr other ↦
          absurd
            (clash (sym (ap (λ (b : Bool). if b then fields else unsupported_command) other) ∙ h))
    ]
  where
    fields : ConfigResult
    fields = config_rest lookup line (config_fields lookup line current)

    clash : unsupported_command ≡ configured next → ⊥
    clash q = cc q

-- A request that configures settings from current ones of the declared sizes gives valid settings
-- of the declared sizes. Their password is the current one if the search finds no value for
-- password in the request. Otherwise what it finds is a string of less than 64 characters, and the
-- password is the array of the current one with that string and a NUL over its beginning.
pub miner_config_parse-configured :
    (validate : List ℕ → Bool) (lookup : Search) (line : List ℕ) (current next : MinerSettings)
    → IsTyped current
    → miner_config_parse validate lookup line current ≡ configured next
    → (settings_valid next ≡ true)
      × IsTyped next
      × PasswordRule (lookup line (codes "password")) current next
unfolding miner_config_parse
miner_config_parse-configured validate lookup line current next t h =
    elim (Bool-cases (validate line)) [
      | inl ok ↦
          by_command (json_string lookup line command_key 24)
            (sym (ap (λ (b : Bool). if b then commanded else invalid_request) ok) ∙ h)
      | inr bad ↦
          absurd (clash (sym (ap (λ (b : Bool). if b then commanded else invalid_request) bad) ∙ h))
    ]
  where
    commanded : ConfigResult
    commanded = config_command lookup line current (json_string lookup line command_key 24)

    clash : invalid_request ≡ configured next → ⊥
    clash q = cc q

    by_command :
        (o : Option (List ℕ))
        → config_command lookup line current o ≡ configured next
        → (settings_valid next ≡ true)
          × IsTyped next
          × PasswordRule (lookup line (codes "password")) current next
    by_command o q = config_command-Configured lookup line current next o t q
