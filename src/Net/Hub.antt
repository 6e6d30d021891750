-- ===== src/Net/Hub.antt =====
-- shared_state.cpp: the sessions that have joined, and a message to all of them.
use clarion.Prelude.{
  ℕ, suc, ◌-◌, ◌<◌, ◌≡◌, refl, ap, ◌∙◌, List, [], ◌∷◌, Bool, true, false, inl, inr, ◌==◌, ◌&&◌,
  if◌then◌else◌, Bool-cases, arith, replicate, ==_iff,
}
use clarion.Net.Session.{Message}

-- `sessions_`: a set of sessions, each known by its address.
abbrev pub Sessions : Type 0
Sessions = List ℕ

unfoldable pub contains : ℕ → Sessions → Bool
contains p [] = false
contains p (q ∷ sessions) = if q == p then true else contains p sessions

unfoldable pub join : ℕ → Sessions → Sessions
join p sessions = if contains p sessions then sessions else p ∷ sessions

unfoldable pub leave : ℕ → Sessions → Sessions
leave p [] = []
leave p (q ∷ sessions) = if q == p then sessions else q ∷ leave p sessions

-- What `websocket_session::send` is called with, for the sessions whose weak pointers can be locked.
unfoldable pub broadcast : (ℕ → Bool) → Message → Sessions → List (ℕ × Message)
broadcast alive message [] = []
broadcast alive message (p ∷ sessions) =
    let rest = broadcast alive message sessions in if alive p then (p, message) ∷ rest else rest

-- The calls of `join` and `leave`, the latest first, and the set after them.
pub data Event : Type 0 where
  joins : ℕ → Event
  leaves : ℕ → Event

abbrev pub after : List Event → Sessions
after [] = []
after (joins p ∷ events) = join p (after events)
after (leaves p ∷ events) = leave p (after events)

-- Whether the latest call for `p` was a `join`.
abbrev pub is_joined : ℕ → List Event → Bool
is_joined p [] = false
is_joined p (joins q ∷ events) = if q == p then true else is_joined p events
is_joined p (leaves q ∷ events) = if q == p then false else is_joined p events

abbrev pub received : ℕ → List (ℕ × Message) → List Message
received p [] = []
received p ((q, message) ∷ calls) = if q == p then message ∷ received p calls else received p calls

count : ℕ → Sessions → ℕ
count p [] = 0
count p (q ∷ sessions) = if q == p then suc (count p sessions) else count p sessions

count-contains :
    (p : ℕ) (sessions : Sessions)
    → (contains p sessions ≡ false → count p sessions ≡ 0)
      × (contains p sessions ≡ true → 0 < count p sessions)
unfolding contains count
count-contains p [] = (λ e. refl, λ e. cc)
count-contains p (q ∷ sessions) =
    let h = count-contains p sessions in
    elim (Bool-cases (q == p)) [
      | inl same ↦ (rw same (λ e. cc), rw same (λ e. omega arith))
      | inr other ↦ rw other h
    ]

count-join_same :
    (p : ℕ) (sessions : Sessions) → count p sessions < 2 → count p (join p sessions) ≡ 1
unfolding join count
count-join_same p sessions h = elim (Bool-cases (contains p sessions)) [
  | inl e ↦ rw e (omega (arith, (count-contains p sessions).1 e))
  | inr e ↦
      let self : (p == p) ≡ true = ground arith in
      rw (e, self) (ap suc ((count-contains p sessions).0 e))
]

count-join_other :
    (p q : ℕ) (sessions : Sessions)
    → (q == p) ≡ false
    → count p (join q sessions) ≡ count p sessions
unfolding join count
count-join_other p q sessions other = elim (Bool-cases (contains q sessions)) [
  | inl e ↦ rw e
  | inr e ↦ rw (e, other)
]

count-leave_same : (p : ℕ) (sessions : Sessions) → count p (leave p sessions) ≡ count p sessions - 1
unfolding leave count
count-leave_same p [] = refl
count-leave_same p (q ∷ sessions) = elim (Bool-cases (q == p)) [
  | inl same ↦ rw same (omega arith)
  | inr other ↦ rw (other, other) (count-leave_same p sessions)
]

count-leave_other :
    (p q : ℕ) (sessions : Sessions)
    → (q == p) ≡ false
    → count p (leave q sessions) ≡ count p sessions
unfolding leave count
count-leave_other p q [] other = refl
count-leave_other p q (x ∷ sessions) other = elim (Bool-cases (x == q)) [
  | inl same ↦
      let e : x ≡ q = (==_iff x q).0 same in
      let other' : (x == p) ≡ false = rw e other in rw (same, other')
  | inr e ↦ rw e (ap (λ n. if x == p then suc n else n) (count-leave_other p q sessions other))
]

one : Bool → ℕ
one b = if b then 1 else 0

one-lt : (b : Bool) → one b < 2
unfolding one
one-lt true = omega arith
one-lt false = omega arith

count-after : (p : ℕ) (events : List Event) → count p (after events) ≡ one (is_joined p events)
unfolding count one
count-after p [] = refl
count-after p (joins q ∷ events) =
    let h = count-after p events in
    let few = one-lt (is_joined p events) in
    elim (Bool-cases (q == p)) [
      | inl same ↦
          let e : q ≡ p = (==_iff q p).0 same in
          rw same (rw e (count-join_same p (after events) (omega arith)))
      | inr other ↦ rw other (count-join_other p q (after events) other ∙ h)
    ]
count-after p (leaves q ∷ events) =
    let h = count-after p events in
    let few = one-lt (is_joined p events) in
    elim (Bool-cases (q == p)) [
      | inl same ↦
          let e : q ≡ p = (==_iff q p).0 same in
          rw same (rw e (count-leave_same p (after events) ∙ omega arith))
      | inr other ↦ rw other (count-leave_other p q (after events) other ∙ h)
    ]

received-broadcast :
    (alive : ℕ → Bool) (m : Message) (p : ℕ) (sessions : Sessions)
    → received p (broadcast alive m sessions)
      ≡ (if alive p then replicate (count p sessions) m else [])
unfolding broadcast count
received-broadcast alive m p [] = elim (Bool-cases (alive p)) [ inl a ↦ rw a | inr a ↦ rw a ]
received-broadcast alive m p (q ∷ sessions) =
    let h = received-broadcast alive m p sessions in
    elim (Bool-cases (q == p)) [
      | inl same ↦
          let e : q ≡ p = (==_iff q p).0 same in
          let e' : alive q ≡ alive p = ap alive e in
          elim (Bool-cases (alive p)) [
            | inl a ↦
                let k : (if alive p then replicate (count p sessions) m else [])
                    ≡ replicate (count p sessions) m =
                  rw a in
                rw (e', a, same) (ap (m ∷◌) (h ∙ k))
            | inr a ↦
                let k : (if alive p then replicate (count p sessions) m else []) ≡ [] = rw a in
                rw (e', a) (h ∙ k)
          ]
      | inr other ↦
          rw other (elim (Bool-cases (alive q)) [ inl a ↦ rw (a, other) h | inr a ↦ rw a h ])
    ]

-- Whatever sessions have joined and left, and in whatever order: a message to all sessions is handed once to
-- every session that is alive and whose latest call was `join`, and to no other session.
pub received_once :
    (alive : ℕ → Bool) (m : Message) (p : ℕ) (events : List Event)
    → received p (broadcast alive m (after events))
      ≡ (if alive p && is_joined p events then m ∷ [] else [])
unfolding one
received_once alive m p events = elim (Bool-cases (alive p)) [
  | inl a ↦ elim (Bool-cases (is_joined p events)) [
    | inl j ↦ rw (received-broadcast alive m p (after events), count-after p events, a, j)
    | inr j ↦ rw (received-broadcast alive m p (after events), count-after p events, a, j)
  ]
  | inr a ↦ rw (received-broadcast alive m p (after events), a)
]
