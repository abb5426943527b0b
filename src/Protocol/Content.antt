-- ===== src/Protocol/Content.antt =====
-- The polling loop of `send_content` of lib/lib.rs ends.
use simple_fs_rust.Base.{
  ◌⊎◌, ℕ, zero, suc, ◌+◌, ◌≤◌, ◌<◌, ◌≡◌, Bool, true, false, arith, refl, inl, inr, Bool-cases, ltb,
}
use native.Mathlib.Decide.{dec_lt}
use simple_fs_rust.Protocol.{Connection, connected, refused, unfinished, connect_loop, attempts}

-- Connected at the first attempt that succeeds, or refused where none of the eleven does.
abbrev pub Ended : (ℕ → Bool) → ℕ → Connection → Type 0
Ended connects from (connected k) =
    (k < attempts) × (connects k ≡ true) × ((i : ℕ) → from ≤ i → i < k → connects i ≡ false)
Ended connects from refused = (i : ℕ) → from ≤ i → i < attempts → connects i ≡ false
Ended connects from unfinished = ⊥

le_cases : (a b : ℕ) → a ≤ b → (a ≡ b) ⊎ (a + 1 ≤ b)
le_cases a b h = elim (dec_lt a b) [ yes p ↦ inr (omega arith) | no p ↦ inl (omega arith) ]

one_earlier :
    (connects : ℕ → Bool) (from : ℕ) (c : Connection)
    → connects from ≡ false
    → Ended connects (from + 1) c
    → Ended connects from c
one_earlier connects from (connected k) failed (inside, now, before) = (
  inside,
  now,
  λ i p q. elim (le_cases from i p) [
    | inl same ↦ rw (← same) failed
    | inr later ↦ before i later q
  ],
)
one_earlier connects from refused failed before = λ i p q. elim (le_cases from i p) [
  | inl same ↦ rw (← same) failed
  | inr later ↦ before i later q
]
one_earlier connects from unfinished failed h = h

connect_loop-Ended_from :
    (fuel retry : ℕ) (connects : ℕ → Bool)
    → fuel + retry ≡ attempts
    → 0 < fuel
    → Ended connects retry (connect_loop fuel retry connects)
unfolding connect_loop
connect_loop-Ended_from zero retry connects e h = absurd (omega arith)
connect_loop-Ended_from (suc fuel) retry connects e h = elim (Bool-cases (connects retry)) [
  | inl yes_now ↦ rw (yes_now, connect_loop) (omega arith, yes_now, λ i p q. absurd (omega arith))
  | inr not_now ↦ elim (Bool-cases (ltb 10 (retry + 1))) [
    | inl last ↦
        rw (not_now, last, connect_loop)
          (λ i p q. let same : i ≡ retry = ground arith in rw same not_now)
    | inr more ↦
        rw (not_now, more, connect_loop)
          (one_earlier connects retry (connect_loop fuel (retry + 1) connects) not_now
            (connect_loop-Ended_from fuel (retry + 1) connects (omega arith) (ground arith)))
  ]
]

-- The polling loop of `send_content` ends after at most eleven attempts: it is connected at the first
-- attempt that succeeds, or gives up when all eleven have failed.
pub connect_loop-Ended : (connects : ℕ → Bool) → Ended connects 0 (connect_loop attempts 0 connects)
connect_loop-Ended connects = connect_loop-Ended_from attempts 0 connects refl (omega arith)
