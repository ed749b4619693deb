-- ===== src/Feed/Streaming/Sync.antt =====
-- What the streaming client is subscribed to (src/feed/streaming.py).
use igthon.Prelude.{
  ◌≡◌, refl, ap, sym, inl, inr, String, Bool, true, ◌||◌, List, [], ◌∷◌, ◌++◌, contains, str_eq,
  eq_iff, arith, Bool-cases, ◌∙◌,
}
use igthon.Feed.Streaming.{
  StreamingClient, add_epic, subscribe_epic, connect, subscribe_all, reconnected,
}

contains-append_one :
    (s : List String) (x e : String) → contains (s ++ x ∷ []) e ≡ (str_eq e x || contains s e)
contains-append_one [] x e = refl
contains-append_one (d ∷ s) x e = ground (arith, contains-append_one s x e)

contains-add_epic :
    (s : List String) (x e : String) → contains (add_epic x s) e ≡ (str_eq e x || contains s e)
unfolding add_epic
contains-add_epic s x e = elim (Bool-cases (contains s x)) [
  | inr new ↦ rw (add_epic, new) (contains-append_one s x e)
  | inl known ↦ elim (Bool-cases (str_eq e x)) [
    | inr other ↦ rw (add_epic, known, other) refl
    | inl same ↦
        let names : e ≡ x = (eq_iff e x).0 same in rw (add_epic, known, same) (rw names known)
  ]
]

-- An online client whose server has the subscriptions that the client remembers.
pub record IsSynced (c : StreamingClient) : Type 0 where
  pub online : c.has_client ≡ true
  pub on_server : (e : String) → contains c.active e ≡ contains c.subscribed_epics e
  pub remembered : (e : String) → contains c.subscriptions e ≡ contains c.subscribed_epics e

-- An online client whose server has the subscriptions that it remembers.
abbrev pub Remembers : StreamingClient → Type 0
Remembers c =
    (c.has_client ≡ true) × ((e : String) → contains c.active e ≡ contains c.subscriptions e)

subscribe_epic-Remembers :
    (x : String) (c : StreamingClient)
    → Remembers c
    → Remembers (subscribe_epic x c)
      × ((e : String)
          → contains (subscribe_epic x c).active e ≡ (str_eq e x || contains c.active e))
unfolding subscribe_epic
subscribe_epic-Remembers x c h = elim (Bool-cases (contains c.subscriptions x)) [
  | inl known ↦
      rw (subscribe_epic, h.0, known)
        (
          (refl, h.1),
          λ e. elim (Bool-cases (str_eq e x)) [
            | inr other ↦ rw other refl
            | inl same ↦
                let alike : contains c.active e ≡ contains c.active x =
                  ap (contains c.active) ((eq_iff e x).0 same) in
                ground (arith, same, alike, known, h.1 x)
          ],
        )
  | inr new ↦
      rw (subscribe_epic, h.0, new)
        (
          (
            refl,
            λ e.
                contains-add_epic c.active x e
                ∙ ap (λ (b : Bool). str_eq e x || b) (h.1 e)
                ∙ sym (contains-append_one c.subscriptions x e),
          ),
          contains-add_epic c.active x,
        )
]

subscribe_all-Remembers :
    (es : List String) (c : StreamingClient) (e : String)
    → Remembers c
    → contains (subscribe_all es c).active e ≡ (contains es e || contains c.active e)
unfolding subscribe_all
subscribe_all-Remembers [] c e h = refl
subscribe_all-Remembers (x ∷ es) c e h =
    let (still, more) = subscribe_epic-Remembers x c h in
    let rest = subscribe_all-Remembers es (subscribe_epic x c) e still in
    ground (arith, rest, more e)

-- When a client that was torn down is connected again, the server has exactly the epics that were
-- read before the sleep, whatever epics the client holds by then.
pub reconnected-active :
    (epics : List String) (c : StreamingClient) (e : String)
    → c.subscriptions ≡ []
    → contains (reconnected epics c).active e ≡ contains epics e
unfolding reconnected connect
reconnected-active epics c e gone =
    let empty : Remembers (connect c) = (refl, λ d. rw gone refl) in
    let all_of = subscribe_all-Remembers epics (connect c) e empty in ground (arith, all_of)
