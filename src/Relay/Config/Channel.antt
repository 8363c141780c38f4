-- ===== src/Relay/Config/Channel.antt =====
-- relay-node/src/main.rs: the RFCOMM channel that the environment sets.
use res_qterra_engine.Common.{
  ℕ, zero, suc, ◌+◌, ◌-◌, ◌*◌, ◌≤◌, ◌<◌, ◌≡◌, refl, ap, String, Option, none, some, Bool, true,
  false, ◌&&◌, ◌⊎◌, Bool-cases, List, [], ◌∷◌, ◌==◌, leb, inl, inr, if◌then◌else◌, arith, dec_lt,
  dec_le, ==_iff,
}
use res_qterra_engine.Common.Text.{show, codes}
use res_qterra_engine.Relay.Config.{
  from_env, parse_u8, parse_number, parse_digits, channel_of, unwrap_or, default_rfcomm_channel,
}

-- `n` is read back from its decimal digits.
abbrev is_number : ℕ → Option ℕ → Bool
is_number n (some m) = m == n
is_number n none = false

is_number-some : (n : ℕ) (o : Option ℕ) → is_number n o ≡ true → o ≡ some n
is_number-some n (some m) h = ap some ((==_iff m n).0 h)
is_number-some n none h = absurd (ground arith)

abbrev reads_back : ℕ → Bool
reads_back n = is_number n (parse_u8 (codes (show n)))

abbrev all_below : (ℕ → Bool) → ℕ → Bool
all_below test zero = true
all_below test (suc n) = test n && all_below test n

all_below-lt : (test : ℕ → Bool) (k n : ℕ) → all_below test k ≡ true → n < k → test n ≡ true
all_below-lt test zero n h lt = absurd (omega arith)
all_below-lt test (suc k) n h lt = elim (dec_lt n k) [
  | yes below ↦ all_below-lt test k n (ground (arith, h)) below
  | no above ↦ let same : n ≡ k = omega arith in rw same (ground (arith, h))
]

every_u8 : all_below reads_back 256 ≡ true
unfolding show
every_u8 = refl

parse_u8-show : (n : ℕ) → n ≤ 255 → parse_u8 (codes (show n)) ≡ some n
parse_u8-show n h =
    is_number-some n (parse_u8 (codes (show n)))
      (all_below-lt reads_back 256 n every_u8 (omega arith))

-- Each channel number of a u8 that is written in decimal in RELAY_RFCOMM_CHANNEL is the channel of
-- the configuration.
pub from_env-show :
    (env : String → Option String) (n : ℕ)
    → n ≤ 255
    → env "RELAY_RFCOMM_CHANNEL" ≡ some (show n)
    → (from_env env).rfcomm_channel ≡ n
unfolding from_env
from_env-show env n h set = rw (set, parse_u8-show n h) refl

abbrev BelowU8 : Option ℕ → Type 0
BelowU8 (some n) = n ≤ 255
BelowU8 none = Unit

-- A result that is kept only where it passes a last test.
BelowU8-if :
    (a b c : Bool) (o : Option ℕ)
    → (c ≡ false) ⊎ BelowU8 o
    → BelowU8 (if a && b && c then o else none)
BelowU8-if true true true o (inl e) = absurd (ground arith)
BelowU8-if true true true o (inr h) = h
BelowU8-if true true false o h = tt
BelowU8-if true false c o h = tt
BelowU8-if false b c o h = tt

parse_digits-below : (n : ℕ) (cs : List ℕ) → n ≤ 255 → BelowU8 (parse_digits n cs)
parse_digits-below n [] h = h
parse_digits-below n (c ∷ cs) h =
    let next = n * 10 + (c - 48) in
    BelowU8-if (leb 48 c) (leb c 57) (leb next 255) (parse_digits next cs) (elim (dec_le next 255) [
      | yes small ↦ inr (parse_digits-below next cs small)
      | no large ↦ inl (ground arith)
    ])

parse_number-below : (cs : List ℕ) → BelowU8 (parse_number cs)
parse_number-below [] = tt
parse_number-below (c ∷ cs) = parse_digits-below 0 (c ∷ cs) (omega arith)

parse_u8-below : (cs : List ℕ) → BelowU8 (parse_u8 cs)
parse_u8-below [] = tt
parse_u8-below (c ∷ cs) = elim (Bool-cases (c == 43)) [
  | inl e ↦ rw e (parse_number-below cs)
  | inr e ↦ rw e (parse_number-below (c ∷ cs))
]

unwrap_or-below : (o : Option ℕ) → BelowU8 o → unwrap_or o default_rfcomm_channel ≤ 255
unwrap_or-below (some n) h = h
unwrap_or-below none h = omega arith

channel_of-below : (o : Option String) → channel_of o ≤ 255
channel_of-below none = omega arith
channel_of-below (some s) = unwrap_or-below (parse_u8 (codes s)) (parse_u8-below (codes s))

-- Whatever the environment holds, the channel of the configuration is a u8.
pub from_env-u8 : (env : String → Option String) → (from_env env).rfcomm_channel ≤ 255
unfolding from_env
from_env-u8 env = channel_of-below (env "RELAY_RFCOMM_CHANNEL")
