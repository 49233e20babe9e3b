-- ===== src/Dashboard/Saves.antt =====
-- A configuration request: the settings in use change only with those that the EEPROM holds.
use scu35_bitcoin_lottery_mi.Base.{
  ℕ, ◌+◌, Bool, true, false, List, Option, none, some, ◌≡◌, refl, ◌⊎◌, inl, inr, u32,
}
use scu35_bitcoin_lottery_mi.Dashboard.Configure.{Shared, after_save, configure_parsed, configure}
use scu35_bitcoin_lottery_mi.Json.{Search}
use scu35_bitcoin_lottery_mi.Protocol.{
  ConfigResult, configured, invalid_request, unsupported_command, invalid_fields, invalid_password,
  invalid_settings, miner_config_parse,
}
use scu35_bitcoin_lottery_mi.Protocol.Config.{miner_config_parse-configured}
use scu35_bitcoin_lottery_mi.Settings.{MinerSettings, settings_valid}
use scu35_bitcoin_lottery_mi.Settings.Current.{current}
use scu35_bitcoin_lottery_mi.Settings.Eeprom.{Run, done, off, Eeprom, IsEeprom}
use scu35_bitcoin_lottery_mi.Settings.Record.{IsTyped}
use scu35_bitcoin_lottery_mi.Settings.Save.{Saved, settings_save-Saved}
use scu35_bitcoin_lottery_mi.Settings.Slots.{settings_save}

module _ (e : Eeprom) where
  open e use {State, cell}

  -- The EEPROM holds what it held, or the settings of the request.
  abbrev pub OldOrNew : ConfigResult → State → State → Type 0
  OldOrNew parsed st st' =
      (current (cell st') ≡ current (cell st))
      ⊎ ((new : MinerSettings) × (parsed ≡ configured new) × (current (cell st') ≡ some new))

  -- What a request leaves behind: settings that are valid and in the EEPROM, with the next
  -- generation; or an error and nothing changed but the EEPROM; or a loss of power.
  abbrev pub Configured :
      ConfigResult → Shared → State → Run State (Option (List ℕ) × Shared) → Type 0
  Configured parsed s st (done (none, s') st') =
      (parsed ≡ configured s'.settings)
      × (settings_valid s'.settings ≡ true)
      × IsTyped s'.settings
      × (s'.generation ≡ u32 (s.generation + 1))
      × (current (cell st') ≡ some s'.settings)
  Configured parsed s st (done (some error, s') st') = (s' ≡ s) × OldOrNew parsed st st'
  Configured parsed s st (off st') = OldOrNew parsed st st'

  old_or_new :
      (new : MinerSettings) (st st' : State)
      → (current (cell st') ≡ current (cell st)) ⊎ (current (cell st') ≡ some new)
      → OldOrNew (configured new) st st'
  old_or_new new st st' (inl q) = inl q
  old_or_new new st st' (inr q) = inr (new, refl, q)

  after_save-Configured :
      (new : MinerSettings) (s : Shared) (st : State) (r : Run State Bool)
      → settings_valid new ≡ true
      → IsTyped new
      → Saved e new (cell st) r
      → Configured (configured new) s st (after_save e new s r)
  unfolding after_save
  after_save-Configured new s st (done true st') valid sized h = (refl, valid, sized, refl, h.0)
  after_save-Configured new s st (done false st') valid sized h = (refl, old_or_new new st st' h.0)
  after_save-Configured new s st (off st') valid sized h = old_or_new new st st' h.0

  parsed-Configured :
      (law : IsEeprom e) (parsed : ConfigResult) (s : Shared) (st : State)
      → ((new : MinerSettings)
          → parsed ≡ configured new
          → (settings_valid new ≡ true) × IsTyped new)
      → Configured parsed s st (configure_parsed e parsed s st)
  unfolding configure_parsed
  parsed-Configured law (configured new) s st h =
      let (valid, sized) = h new refl in
      after_save-Configured new s st (settings_save e new st) valid sized
        (settings_save-Saved e law new st sized)
  parsed-Configured law invalid_request s st h = (refl, inl refl)
  parsed-Configured law unsupported_command s st h = (refl, inl refl)
  parsed-Configured law invalid_fields s st h = (refl, inl refl)
  parsed-Configured law invalid_password s st h = (refl, inl refl)
  parsed-Configured law invalid_settings s st h = (refl, inl refl)

  -- On an EEPROM that keeps its laws, with settings in use of the declared sizes: a request that
  -- returns 0 puts valid settings of the declared sizes in use, which are those of the request,
  -- with the next generation, and the EEPROM then holds them. One that returns an error changes
  -- nothing that is in use. Then, and if power is lost, the EEPROM holds the settings that it held,
  -- or those of the request.
  pub configure-Configured :
      (law : IsEeprom e) (validate : List ℕ → Bool) (lookup : Search) (line : List ℕ) (s : Shared)
      (st : State)
      → IsTyped s.settings
      → Configured
          (miner_config_parse validate lookup line s.settings)
          s
          st
          (configure e validate lookup line s st)
  unfolding configure
  configure-Configured law validate lookup line s st sized =
      parsed-Configured law (miner_config_parse validate lookup line s.settings) s st (λ new q.
        let (valid, typed, _) =
          miner_config_parse-configured validate lookup line s.settings new sized q in
        (valid, typed))
