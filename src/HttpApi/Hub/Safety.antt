-- ===== src/HttpApi/Hub/Safety.antt =====
-- No order of events makes the hub send on a closed channel or close one twice.
use kamado_pool.Base.{
  ℕ, ◌≤◌, ◌≡◌, Bool, true, false, List, [], ◌∷◌, Option, none, some, arith, length, length-append,
  All,
}
use kamado_pool.HttpApi.Hub.{
  opening, serving, WsClient, send_capacity, max_drop_misses, Incoming, Event, connected, greeted,
  broadcast, writer_turn, ticked, reader_turn, new_client, offer, broadcast_to, remove, greet,
  write, read, react, react_all, step, run,
}

-- What holds of a client between two steps: a registered client's channel is open, a client whose
-- goroutines have not started or whose reader runs is registered, the channel holds eight payloads
-- at most, and a connection with six misses in a row is closed.
pub record IsSound {A : Type 0} (c : WsClient A) : Type 0 where
  pub registered_open : c.is_registered ≡ true → c.is_send_closed ≡ false
  pub opening_registered : c.stage ≡ opening → c.is_registered ≡ true
  pub serving_registered : c.stage ≡ serving → c.is_registered ≡ true
  pub bounded : length c.sends ≤ send_capacity
  pub missed_closed : max_drop_misses ≤ c.drop_misses → c.is_conn_open ≡ false

-- a computation that does not panic and whose result satisfies P
unfoldable pub IsSafe : {A : Type 0} → (A → Type 0) → Option A → Type 0
IsSafe P none = ⊥
IsSafe P (some a) = P a

pub IsSafe-bind :
    {A B : Type 0} {P : A → Type 0} (Q : B → Type 0) (f : A → Option B) (o : Option A)
    → IsSafe P o
    → ((a : A) → P a → IsSafe Q (f a))
    → IsSafe Q (elim o [ none ↦ none | some a ↦ f a ])
unfolding IsSafe
IsSafe-bind Q f none h k = absurd h
IsSafe-bind Q f (some a) h k = k a h

pub IsSafe-map :
    {A : Type 0} (P Q : A → Type 0) (o : Option A) → IsSafe P o → ((a : A) → P a → Q a) → IsSafe Q o
unfolding IsSafe
IsSafe-map P Q none h k = absurd h
IsSafe-map P Q (some a) h k = k a h

pub IsSafe-both :
    {A : Type 0} (P Q : A → Type 0) (o : Option A)
    → IsSafe P o
    → IsSafe Q o
    → IsSafe (λ a. P a × Q a) o
unfolding IsSafe
IsSafe-both P Q none p q = p
IsSafe-both P Q (some a) p q = (p, q)

module _ {A : Type 0} where
  pub new_client-IsSound : (i : ℕ) → IsSound (new_client {A = A} i)
  unfolding new_client
  new_client-IsSound i = ground arith

  broadcast_to-IsSound :
      (p : A) (c : WsClient A)
      → IsSound c
      → c.is_registered ≡ true
      → IsSafe IsSound (broadcast_to p c)
  unfolding broadcast_to offer IsSafe
  broadcast_to-IsSound p c h r =
      let is_open = h.registered_open r in
      let len = length-append (c.sends) (p ∷ []) in ground arith

  read-IsSound : (f : Incoming) (c : WsClient A) → IsSound c → IsSafe IsSound (read f c)
  unfolding read remove IsSafe
  read-IsSound f c h = ground arith

  write-IsSound : (ok : Bool) (c : WsClient A) → IsSound c → IsSound (write ok c)
  unfolding write
  write-IsSound ok c h = ground arith

  greet-IsSound :
      (p : Option A) (c : WsClient A) → IsSound c → c.stage ≡ opening → IsSafe IsSound (greet p c)
  unfolding greet offer IsSafe
  greet-IsSound none c h r = ground arith
  greet-IsSound (some p) c h r =
      let is_open = h.registered_open (h.opening_registered r) in
      let len = length-append (c.sends) (p ∷ []) in ground arith

  pub react-IsSound : (e : Event A) (c : WsClient A) → IsSound c → IsSafe IsSound (react e c)
  unfolding react IsSafe
  react-IsSound connected c h = h
  react-IsSound (greeted i p) c h = ground (arith, λ (s : c.stage ≡ opening). greet-IsSound p c h s)
  react-IsSound (broadcast none) c h = h
  react-IsSound (broadcast (some p)) c h =
      ground (arith, λ (r : c.is_registered ≡ true). broadcast_to-IsSound p c h r)
  react-IsSound (writer_turn i ok) c h = ground (arith, write-IsSound ok c h)
  react-IsSound (ticked i ok) c h = ground arith
  react-IsSound (reader_turn i f) c h = ground (arith, read-IsSound f c h)

  -- at least as many clients, each with the property
  abbrev pub IsGrown : (WsClient A → Type 0) → List (WsClient A) → List (WsClient A) → Type 0
  IsGrown Q cs cs' = (length cs ≤ length cs') × All Q cs'

  pub All-map :
      (P Q : WsClient A → Type 0)
      → ((c : WsClient A) → P c → Q c)
      → (cs : List (WsClient A)) → All P cs
      → All Q cs
  All-map P Q f [] h = tt
  All-map P Q f (c ∷ cs) h = (f c h.0, All-map P Q f cs h.1)

  -- a step that takes P of each client to Q keeps the number of clients
  pub react_all-All :
      (P Q : WsClient A → Type 0) (e : Event A)
      → ((c : WsClient A) → P c → IsSafe Q (react e c))
      → (cs : List (WsClient A)) → All P cs
      → IsSafe (IsGrown Q cs) (react_all e cs)
  unfolding react_all
  react_all-All P Q e f [] h = unfold IsSafe in (omega arith, tt)
  react_all-All P Q e f (c ∷ cs) h =
      IsSafe-bind (IsGrown Q (c ∷ cs)) _ (react e c) (f c h.0) (λ c' q.
        IsSafe-bind (IsGrown Q (c ∷ cs)) (λ cs'. some (c' ∷ cs')) (react_all e cs)
          (react_all-All P Q e f cs h.1) (λ cs' t. unfold IsSafe in (omega (arith, t.0), (q, t.1))))

  -- the clients after a step: those of before, and the new one of a `connected`
  pub step-All :
      (P Q : WsClient A → Type 0) (e : Event A) (cs : List (WsClient A))
      → Q (new_client (length cs))
      → ((c : WsClient A) → P c → IsSafe Q (react e c))
      → All P cs
      → IsSafe (IsGrown Q cs) (step e cs)
  unfolding step
  step-All P Q connected cs new f h =
      let keep : (c : WsClient A) → P c → Q c = λ c p. unfold react IsSafe in f c p in
      unfold IsSafe in (omega arith, (new, All-map P Q keep cs h))
  step-All P Q (greeted i p) cs new f h = react_all-All P Q _ f cs h
  step-All P Q (broadcast p) cs new f h = react_all-All P Q _ f cs h
  step-All P Q (writer_turn i ok) cs new f h = react_all-All P Q _ f cs h
  step-All P Q (ticked i ok) cs new f h = react_all-All P Q _ f cs h
  step-All P Q (reader_turn i g) cs new f h = react_all-All P Q _ f cs h

  run-IsSound :
      (es : List (Event A)) (cs : List (WsClient A))
      → All IsSound cs
      → IsSafe (All IsSound) (run es cs)
  unfolding run
  run-IsSound [] cs h = unfold IsSafe in h
  run-IsSound (e ∷ es) cs h =
      IsSafe-bind _ _ (step e cs)
        (step-All IsSound IsSound e cs (new_client-IsSound (length cs)) (react-IsSound e) h)
        (λ cs' t. run-IsSound es cs' t.1)

-- Whatever happens after the start, in whatever order, the hub does not panic: it never sends on a
-- closed channel and closes none twice. In every state it comes to, a registered client's channel is
-- open, a client that is being set up or read from is registered, a channel holds at most the eight
-- payloads it has room for, and a client with six misses in a row has its connection closed.
pub run-IsSafe : {A : Type 0} (es : List (Event A)) → IsSafe (All IsSound) (run es [])
run-IsSafe es = run-IsSound es [] tt
