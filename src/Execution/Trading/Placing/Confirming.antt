-- ===== src/Execution/Trading/Placing/Confirming.antt =====
-- Which confirmation an opening gets (src/execution/trading.py).
use mathlib.Core.Path.{subst}
use igthon.Prelude.{
  ◌≡◌, ◌≢◌, ◌↔◌, inl, inr, refl, sym, ap, ◌∙◌, ℕ, zero, suc, ◌+◌, ◌≤◌, ◌<◌, Bool, true, false,
  Option, none, some, Bool-cases, arith, le_or_lt,
}
use igthon.Execution.Trading.Placing.{
  Confirmation, ConfirmReply, confirmed, status_error, network_error, is_retried, after_reply,
  confirm_loop, confirm_with_retry,
}

-- An error after which the request is made again: 404, a server's, or one without a status.
abbrev pub IsTransient : ConfirmReply → Type 0
IsTransient (confirmed c) = true ≡ false
IsTransient (status_error status) = is_retried status ≡ true
IsTransient network_error = Unit

abbrev of_option : Confirmation → Option Confirmation → Confirmation
of_option d none = d
of_option d (some c) = c

abbrev is_error : ConfirmReply → Bool
is_error (confirmed c) = false
is_error (status_error status) = true
is_error network_error = true

error_is_none : (status : Option ℕ) (c : Confirmation) → status_error status ≢ confirmed c
error_is_none status c e = absurd (let f : true ≡ false = ap is_error e in cc)

module _ (replies : ℕ → ConfirmReply) (c : Confirmation) where
  -- The confirmation is the answer to a request, and those before it failed for a while only.
  abbrev pub IsFirst : ℕ → ℕ → Type 0
  IsFirst start k =
      (start ≤ k)
      × (replies k ≡ confirmed c)
      × ((j : ℕ) → start ≤ j → j < k → IsTransient (replies j))

  abbrev FirstWithin : ℕ → ℕ → Type 0
  FirstWithin start left = (k : ℕ) × (k < start + left) × IsFirst start k

  skip :
      (start left : ℕ)
      → IsTransient (replies start)
      → FirstWithin (suc start) left
      → FirstWithin start (suc left)
  skip start left t (k, below, (from, answer, before)) = (
    k,
    omega (arith, below),
    (
      omega (arith, from),
      answer,
      λ j lo up. elim (le_or_lt j start) [
        | inl le ↦
            (let e : start ≡ j = omega (arith, le, lo) in
              subst (λ (x : ℕ). IsTransient (replies x)) e t)
        | inr lt ↦ before j lt up
      ],
    ),
  )

  unskip :
      (start left : ℕ)
      → IsTransient (replies start)
      → FirstWithin start (suc left)
      → FirstWithin (suc start) left
  unskip start left t (k, below, (from, answer, before)) = elim (le_or_lt k start) [
    | inl le ↦
        (let e : k ≡ start = omega (arith, le, from) in
          let same : replies start ≡ confirmed c =
            subst (λ (x : ℕ). replies x ≡ confirmed c) e answer in
          absurd (let bad : true ≡ false = subst IsTransient same t in cc))
    | inr lt ↦ (k, omega (arith, below), (lt, answer, λ j lo up. before j (omega (arith, lo)) up))
  ]

  at_once :
      (start left : ℕ) (d : Confirmation)
      → replies start ≡ confirmed d
      → (some d ≡ some c) ↔ FirstWithin start (suc left)
  at_once start left d e = (
    λ same. (
      start,
      omega arith,
      (
        omega arith,
        (e ∙ ap (λ o. confirmed (of_option d o)) same),
        λ j lo up. absurd (omega (arith, lo, up)),
      ),
    ),
    λ (k, below, (from, answer, before)). elim (le_or_lt k start) [
      | inl le ↦
          (let f : k ≡ start = omega (arith, le, from) in
            let same : confirmed d ≡ confirmed c =
              sym e ∙ subst (λ (x : ℕ). replies x ≡ confirmed c) f answer in
            ground (arith, same))
      | inr lt ↦
          absurd
            (let bad : true ≡ false = subst IsTransient e (before start (omega arith) lt) in cc)
    ],
  )

  never :
      (start left : ℕ)
      → replies start ≢ confirmed c
      → (IsTransient (replies start) → true ≡ false)
      → (none ≡ some c) ↔ FirstWithin start (suc left)
  never start left other final = (
    λ e. absurd (ground (arith, e)),
    λ (k, below, (from, answer, before)). elim (le_or_lt k start) [
      | inl le ↦
          (let f : k ≡ start = omega (arith, le, from) in
            absurd (other (subst (λ (x : ℕ). replies x ≡ confirmed c) f answer)))
      | inr lt ↦ absurd (ground (arith, final (before start (omega arith) lt)))
    ],
  )

  after_reply-first :
      (start left : ℕ) (r : ConfirmReply) (rest : Option Confirmation)
      → replies start ≡ r
      → (rest ≡ some c) ↔ FirstWithin (suc start) left
      → (after_reply r rest ≡ some c) ↔ FirstWithin start (suc left)
  after_reply-first start left (confirmed d) rest e h = at_once start left d e
  after_reply-first start left network_error rest e h =
      let t : IsTransient (replies start) = subst IsTransient (sym e) tt in
      (λ x. skip start left t (h.0 x), λ y. h.1 (unskip start left t y))
  after_reply-first start left (status_error status) rest e h =
      elim (Bool-cases (is_retried status)) [
        | inl again ↦
            let t : IsTransient (replies start) = subst IsTransient (sym e) again in
            rw (again) (λ x. skip start left t (h.0 x), λ y. h.1 (unskip start left t y))
        | inr stop ↦ rw (stop) (
            never start left (λ same. error_is_none status c (sym e ∙ same))
              (λ t. sym (subst IsTransient e t) ∙ stop))
      ]

  confirm_loop-first :
      (left start : ℕ) → (confirm_loop replies left start ≡ some c) ↔ FirstWithin start left
  unfolding confirm_loop
  confirm_loop-first zero start = (
    λ e. absurd (ground (arith, e)),
    λ (k, below, (from, answer, before)). absurd (omega (arith, below, from)),
  )
  confirm_loop-first (suc left) start =
      after_reply-first start left (replies start) (confirm_loop replies left (suc start)) refl
        (confirm_loop-first left (suc start))

  -- The opening gets a confirmation exactly if one of the first four requests is answered with it and
  -- each request before fails with a 404, with an error of the server, or without a status.
  pub confirm_with_retry-IsFirst :
      (confirm_with_retry replies ≡ some c) ↔ ((k : ℕ) × (k ≤ 4) × IsFirst 1 k)
  unfolding confirm_with_retry
  confirm_with_retry-IsFirst =
      let (to, from) = confirm_loop-first 4 1 in
      (
        λ e. (let (k, below, first) = to e in (k, omega (arith, below), first)),
        λ (k, below, first). from (k, omega (arith, below), first),
      )
