-- ===== src/Mavlink/Telemetry/Faults.antt =====
-- src/mavlink/telemetry.rs: the list of active faults.
use res_qterra_engine.Common.{
  ℕ, zero, suc, ◌+◌, ◌-◌, ◌≤◌, ◌≡◌, refl, sym, ◌∙◌, ap, arith, String, false, List, [], ◌∷◌, ◌++◌,
  leb, ltb, if◌then◌else◌, length, drop, length-append, length-drop, append_assoc, append-nil,
  Bool-cases, dec_le, lt→ltb, inl, inr,
}
use res_qterra_engine.Mavlink.Floats.{Floats}
use res_qterra_engine.Mavlink.Messages.{
  MavMessage, command_long, mission_item_int, global_position_int, gps_raw_int, sys_status,
  mav_battery_status, mav_heartbeat, statustext, vfr_hud, other,
}
use res_qterra_engine.Mavlink.Telemetry.{
  TelemetryReader, new_reader, process_message, process_all, push_fault, trim_end_nul,
}

ltb-false : (a b : ℕ) → b ≤ a → ltb a b ≡ false
ltb-false a b h = ground arith

-- The last `n` elements.
abbrev pub last {ℓ} : {A : Type ℓ} → ℕ → List A → List A
last n xs = drop (length xs - n) xs

drop-append_short {ℓ} :
    {A : Type ℓ} (k : ℕ) (xs ys : List A) → k ≤ length xs → drop k (xs ++ ys) ≡ drop k xs ++ ys
drop-append_short zero xs ys h = refl
drop-append_short (suc k) [] ys h = absurd (omega arith)
drop-append_short (suc k) (x ∷ xs) ys h = drop-append_short k xs ys (omega arith)

drop-drop {ℓ} : {A : Type ℓ} (k : ℕ) (xs : List A) → drop 1 (drop k xs) ≡ drop (suc k) xs
drop-drop zero [] = refl
drop-drop zero (x ∷ xs) = refl
drop-drop (suc k) [] = refl
drop-drop (suc k) (x ∷ xs) = drop-drop k xs

length-pushed :
    (xs : List String) (t : String)
    → length (last 10 xs ++ t ∷ []) ≡ (length xs - (length xs - 10)) + 1
length-pushed xs t = length-append (last 10 xs) (t ∷ []) ∙ ap (λ n. n + 1) (length-drop _ xs)

drop-of_eq {ℓ} : {A : Type ℓ} {j k : ℕ} (xs : List A) → j ≡ k → drop j xs ≡ drop k xs
drop-of_eq xs e = ap (λ n. drop n xs) e

push_fault-few :
    (xs : List String) (t : String)
    → length xs ≤ 9
    → push_fault (last 10 xs) t ≡ last 10 (xs ++ t ∷ [])
push_fault-few xs t h =
    let size = length-pushed xs t in
    let grown = length-append xs (t ∷ []) in
    let short =
      ap (λ b. if b then drop 1 (last 10 xs ++ t ∷ []) else last 10 xs ++ t ∷ [])
        (ltb-false 10 (length (last 10 xs ++ t ∷ [])) (omega (arith, size))) in
    short
    ∙ ap (λ l. l ++ t ∷ []) (drop-of_eq {k = 0} xs (omega arith))
    ∙ drop-of_eq {j = 0} {k = length (xs ++ t ∷ []) - 10} (xs ++ t ∷ []) (omega (arith, grown))

push_fault-full :
    (xs : List String) (t : String)
    → 10 ≤ length xs
    → push_fault (last 10 xs) t ≡ last 10 (xs ++ t ∷ [])
push_fault-full xs t h =
    let size = length-pushed xs t in
    let grown = length-append xs (t ∷ []) in
    let k = length xs - 10 in
    let long =
      ap (λ b. if b then drop 1 (last 10 xs ++ t ∷ []) else last 10 xs ++ t ∷ [])
        (lt→ltb 10 (length (last 10 xs ++ t ∷ [])) (omega (arith, size))) in
    long
    ∙ drop-append_short 1 (last 10 xs) (t ∷ []) (omega (arith, length-drop k xs))
    ∙ ap (λ l. l ++ t ∷ []) (drop-drop k xs)
    ∙ sym (drop-append_short (suc k) xs (t ∷ []) (omega arith))
    ∙ drop-of_eq {j = suc k} {k = length (xs ++ t ∷ []) - 10} (xs ++ t ∷ []) (omega (arith, grown))

-- Pushing onto the last ten gives the last ten.
push_fault-last :
    (xs : List String) (t : String) → push_fault (last 10 xs) t ≡ last 10 (xs ++ t ∷ [])
push_fault-last xs t = elim (dec_le (length xs) 9) [
  | yes h ↦ push_fault-few xs t h
  | no h ↦ push_fault-full xs t (omega arith)
]

module _ (utf8 : List ℕ → String) where
  -- The texts of the faults among some messages: those of severity 3 or worse, without the zeros at
  -- the end.
  abbrev pub fault_texts : List MavMessage → List String
  fault_texts [] = []
  fault_texts (statustext t ∷ ms) =
      if leb t.severity 3 then trim_end_nul (utf8 t.text) ∷ fault_texts ms else fault_texts ms
  fault_texts (_ ∷ ms) = fault_texts ms

module _ (float : Floats) (utf8 : List ℕ → String) where
  process_all-faults :
      (r : TelemetryReader) (seen : List String) (ms : List MavMessage)
      → r.fc_status.active_faults ≡ last 10 seen
      → (process_all float utf8 r ms).fc_status.active_faults
        ≡ last 10 (seen ++ fault_texts utf8 ms)
  unfolding process_all process_message
  process_all-faults r seen [] h = h ∙ ap (λ l. last 10 l) (sym (append-nil seen))
  process_all-faults r seen (statustext t ∷ ms) h =
      let text = trim_end_nul (utf8 t.text) in
      let pushed = process_message float utf8 r (statustext t) in
      elim (Bool-cases (leb t.severity 3)) [
        | inl e ↦ rw e (
            process_all-faults pushed (seen ++ text ∷ []) ms (rw (e, h) (push_fault-last seen text))
            ∙ ap (λ l. last 10 l) (append_assoc seen (text ∷ []) (fault_texts utf8 ms)))
        | inr e ↦ rw e (process_all-faults pushed seen ms (rw e h))
      ]
  process_all-faults r seen (mav_heartbeat hb ∷ ms) h =
      process_all-faults (process_message float utf8 r (mav_heartbeat hb)) seen ms h
  process_all-faults r seen (command_long c ∷ ms) h = process_all-faults r seen ms h
  process_all-faults r seen (mission_item_int i ∷ ms) h = process_all-faults r seen ms h
  process_all-faults r seen (global_position_int p ∷ ms) h =
      process_all-faults (process_message float utf8 r (global_position_int p)) seen ms h
  process_all-faults r seen (gps_raw_int g ∷ ms) h =
      process_all-faults (process_message float utf8 r (gps_raw_int g)) seen ms h
  process_all-faults r seen (sys_status s ∷ ms) h =
      process_all-faults (process_message float utf8 r (sys_status s)) seen ms h
  process_all-faults r seen (mav_battery_status b ∷ ms) h =
      process_all-faults (process_message float utf8 r (mav_battery_status b)) seen ms h
  process_all-faults r seen (vfr_hud v ∷ ms) h =
      process_all-faults (process_message float utf8 r (vfr_hud v)) seen ms h
  process_all-faults r seen (other n ∷ ms) h = process_all-faults r seen ms h

  -- The active faults are the last ten fault texts of all the messages so far, in order.
  pub active_faults-last :
      (now : ℕ) (ms : List MavMessage)
      → (process_all float utf8 (new_reader now) ms).fc_status.active_faults
        ≡ last 10 (fault_texts utf8 ms)
  active_faults-last now ms = process_all-faults (new_reader now) [] ms refl
