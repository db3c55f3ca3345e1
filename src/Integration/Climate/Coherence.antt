-- ===== src/Integration/Climate/Coherence.antt =====
-- Which special modes of the air conditioner can be on together.
use rose_esp.Prelude.{◌≡◌, ◌⊎◌, refl, true, false, ◌&&◌, List, [], ◌∷◌, arith, ap}
use rose_esp.Integration.Tcl.{Floats, TclFanMode, cool, heat, encode_tcl_ir_signal}
use rose_esp.Integration.Climate.{
  HvacMode, active, hvac_off, SwingMode, Extra, Climate, Extended, restrict, exclusive, update, new,
  tcl_state, send, set_hvac_mode, set_temperature, set_fan_mode, set_swing_mode, turn_on, turn_off,
  send_extended,
}

-- Economy only while cooling, turbo only while cooling or heating, the auxiliary heater only while
-- heating, and never economy with turbo.
pub record IsCoherent (mode : HvacMode) (e : Extra) : Type 0 where
  pub econo_cools : e.econo ≡ true → mode ≡ active cool
  pub turbo_runs : e.turbo ≡ true → (mode ≡ active cool) ⊎ (mode ≡ active heat)
  pub aux_heats : e.aux_heat ≡ true → mode ≡ active heat
  pub exclusive : (e.econo && e.turbo) ≡ false

restrict-IsCoherent :
    (mode : HvacMode) (e : Extra) → (e.econo && e.turbo) ≡ false → IsCoherent mode (restrict mode e)
unfolding restrict
restrict-IsCoherent mode e h = record {
  econo_cools = ground arith;
  turbo_runs = ground arith;
  aux_heats = ground arith;
  exclusive = ground arith;
}

update-exclusive :
    (values : Extended) (e : Extra)
    → (e.econo && e.turbo) ≡ false
    → ((update (exclusive values) e).econo && (update (exclusive values) e).turbo) ≡ false
unfolding update exclusive
update-exclusive values e h = ground arith

-- A service call on the entity.
pub data Command (F : Type 0) : Type 0 where
  mode : HvacMode → Command F
  temperature : F → Command F
  fan : TclFanMode → Command F
  swing : SwingMode → Command F
  extended : Extended → Command F
  turns_on turns_off : Command F

module _ {F : Type 0} (floats : Floats F) where
  pub run : Command F → Climate F → Climate F
  unfolding turn_on turn_off
  run (mode m) c = set_hvac_mode floats m c
  run (temperature t) c = set_temperature floats t c
  run (fan m) c = set_fan_mode floats m c
  run (swing m) c = set_swing_mode floats m c
  run (extended values) c = send_extended floats values c
  run turns_on c = turn_on floats c
  run turns_off c = turn_off floats c

  pub run_all : List (Command F) → Climate F → Climate F
  run_all [] c = c
  run_all (command ∷ commands) c = run_all commands (run command c)

  -- What `_send` leaves: a coherent state, and its signal as the last one sent.
  abbrev IsSent : Climate F → Climate F → Type 0
  IsSent c c' =
      IsCoherent c'.hvac_mode c'.extra
      × (c'.sent ≡ encode_tcl_ir_signal floats (tcl_state floats c') ∷ c.sent)

  send-IsSent :
      (c d : Climate F)
      → (d.extra.econo && d.extra.turbo) ≡ false
      → d.sent ≡ c.sent
      → IsSent c (send floats d)
  unfolding send tcl_state
  send-IsSent c d h e = (
    restrict-IsCoherent d.hvac_mode d.extra h,
    ap (λ s. encode_tcl_ir_signal floats (tcl_state floats (send floats d)) ∷ s) e,
  )

  run-IsSent :
      (command : Command F) (c : Climate F)
      → (c.extra.econo && c.extra.turbo) ≡ false
      → IsSent c (run command c)
  unfolding run set_hvac_mode set_temperature set_fan_mode set_swing_mode send_extended turn_on
      turn_off
  run-IsSent (mode hvac_off) c h = send-IsSent c _ h refl
  run-IsSent (mode (active m)) c h = send-IsSent c _ h refl
  run-IsSent (temperature t) c h = send-IsSent c _ h refl
  run-IsSent (fan m) c h = send-IsSent c _ h refl
  run-IsSent (swing m) c h = send-IsSent c _ h refl
  run-IsSent (extended values) c h = send-IsSent c _ (update-exclusive values c.extra h) refl
  run-IsSent turns_on c h = send-IsSent c _ h refl
  run-IsSent turns_off c h = send-IsSent c _ h refl

  run_all-exclusive :
      (commands : List (Command F)) (c : Climate F)
      → (c.extra.econo && c.extra.turbo) ≡ false
      → ((run_all commands c).extra.econo && (run_all commands c).extra.turbo) ≡ false
  unfolding run_all
  run_all-exclusive [] c h = h
  run_all-exclusive (command ∷ commands) c h =
      run_all-exclusive commands (run command c) (run-IsSent command c h).0.exclusive

  -- After any commands on a new entity, one more command sends one signal, that of the state that it
  -- leaves, and in this state economy is on only while cooling, turbo only while cooling or heating,
  -- the auxiliary heater only while heating, and economy and turbo are never both on.
  pub run-IsCoherent :
      (t : F) (commands : List (Command F)) (command : Command F)
      → let c = run_all commands (new t) in
        IsCoherent (run command c).hvac_mode (run command c).extra
        × ((run command c).sent
            ≡ encode_tcl_ir_signal floats (tcl_state floats (run command c)) ∷ c.sent)
  run-IsCoherent t commands command =
      run-IsSent command (run_all commands (new t)) (run_all-exclusive commands (new t) refl)
