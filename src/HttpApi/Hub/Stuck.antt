-- ===== src/HttpApi/Hub/Stuck.antt =====
-- A client whose goroutines no longer move is disconnected.
use mathlib.Core.Path.{subst}
use kamado_pool.Base.{
  ℕ, suc, ◌+◌, ◌≤◌, ◌<◌, ◌≡◌, ◌≢◌, true, false, List, [], ◌∷◌, none, some, arith, ltb,
  if◌then◌else◌, length, length-append, All,
}
use kamado_pool.HttpApi.Hub.{
  WsClient, send_capacity, Event, connected, greeted, broadcast, writer_turn, ticked, reader_turn,
  new_client, offer, broadcast_to, remove, greet, write, read, react, step, run,
}
use kamado_pool.HttpApi.Hub.Safety.{
  IsSound, IsSafe, IsSafe-bind, IsSafe-both, IsSafe-map, All-map, react-IsSound, new_client-IsSound,
  step-All,
}

module _ {A : Type 0} where
  -- how many broadcasts a client has taken or missed since its channel was empty
  unfoldable pub backlog : WsClient A → ℕ
  backlog c =
      if ltb (length c.sends) send_capacity then length c.sends else send_capacity + c.drop_misses

  -- an event in which the goroutines of client i take no part
  unfoldable pub IsIdle : ℕ → Event A → Type 0
  IsIdle i (greeted j p) = i ≢ j
  IsIdle i (writer_turn j ok) = i ≢ j
  IsIdle i (ticked j ok) = i ≢ j
  IsIdle i (reader_turn j f) = i ≢ j
  IsIdle i _ = Unit

  -- the number of broadcasts whose snapshot is encoded
  unfoldable pub broadcasts : List (Event A) → ℕ
  broadcasts [] = 0
  broadcasts (broadcast (some p) ∷ es) = suc (broadcasts es)
  broadcasts (_ ∷ es) = broadcasts es

  -- client i is registered and, if its connection is open, has had n broadcasts at least
  unfoldable pub IsBehind : ℕ → ℕ → WsClient A → Type 0
  IsBehind i n c = c.id ≡ i → (c.is_registered ≡ true) × (c.is_conn_open ≡ true → n ≤ backlog c)

  broadcast-IsBehind :
      (i n : ℕ) (p : A) (c : WsClient A)
      → IsSound c
      → IsBehind i n c
      → IsSafe (IsBehind i (suc n)) (react (broadcast (some p)) c)
  unfolding react broadcast_to offer IsSafe IsBehind backlog
  broadcast-IsBehind i n p c sound h =
      let is_open = sound.registered_open in
      let len = length-append (c.sends) (p ∷ []) in ground arith

  idle-IsBehind :
      (i n : ℕ) (e : Event A) (c : WsClient A)
      → IsIdle i e
      → IsSound c
      → IsBehind i n c
      → IsSafe (IsBehind i (n + broadcasts (e ∷ []))) (react e c)
  unfolding broadcasts IsIdle
  idle-IsBehind i n (broadcast (some p)) c idle sound h =
      subst (λ k. IsSafe (IsBehind i k) (react (broadcast (some p)) c)) (omega arith)
        (broadcast-IsBehind i n p c sound h)
  idle-IsBehind i n (broadcast none) c idle sound h = unfold react IsSafe IsBehind in ground arith
  idle-IsBehind i n connected c idle sound h = unfold react IsSafe IsBehind in ground arith
  idle-IsBehind i n (greeted j p) c idle sound h =
      let is_open = sound.registered_open in
      let opens = sound.opening_registered in
      unfold react greet offer IsSafe IsBehind in ground arith
  idle-IsBehind i n (writer_turn j ok) c idle sound h =
      unfold react write IsSafe IsBehind in ground arith
  idle-IsBehind i n (ticked j ok) c idle sound h = unfold react IsSafe IsBehind in ground arith
  idle-IsBehind i n (reader_turn j f) c idle sound h =
      let is_open = sound.registered_open in
      unfold react read remove IsSafe IsBehind in ground arith

  -- what holds after n broadcasts at least, for client i
  abbrev pub IsWaiting : ℕ → ℕ → WsClient A → Type 0
  IsWaiting i n c = IsSound c × IsBehind i n c

  IsWaiting-IsSafe :
      (i n : ℕ) (e : Event A) (c : WsClient A)
      → IsIdle i e
      → IsWaiting i n c
      → IsSafe (IsWaiting i (n + broadcasts (e ∷ []))) (react e c)
  IsWaiting-IsSafe i n e c idle h =
      IsSafe-both _ _ (react e c) (react-IsSound e c h.0) (idle-IsBehind i n e c idle h.0 h.1)

  new_client-IsWaiting : (i n k : ℕ) → i < k → IsWaiting i n (new_client {A = A} k)
  new_client-IsWaiting i n k old =
      (new_client-IsSound k, unfold IsBehind new_client in λ e. absurd (omega (arith, e, old)))

  broadcasts_cons :
      (e : Event A) (es : List (Event A))
      → broadcasts (e ∷ es) ≡ broadcasts (e ∷ []) + broadcasts es
  unfolding broadcasts
  broadcasts_cons (broadcast (some p)) es = omega arith
  broadcasts_cons _ es = omega arith

  run-IsWaiting :
      (i n m : ℕ) (es : List (Event A)) (cs : List (WsClient A))
      → m ≡ n + broadcasts es
      → All (IsIdle i) es
      → i < length cs
      → All (IsWaiting i n) cs
      → IsSafe (All (IsWaiting i m)) (run es cs)
  unfolding run
  run-IsWaiting i n m [] cs sum idle old h =
      let same : n ≡ m = unfold broadcasts in omega (arith, sum) in
      unfold IsSafe in subst (λ k. All (IsWaiting i k) cs) same h
  run-IsWaiting i n m (e ∷ es) cs sum idle old h =
      let n' = n + broadcasts (e ∷ []) in
      IsSafe-bind _ _ (step e cs)
        (step-All (IsWaiting i n) (IsWaiting i n') e cs (new_client-IsWaiting i n' (length cs) old)
          (λ c. IsWaiting-IsSafe i n e c idle.0) h)
        (λ cs' t.
          run-IsWaiting i n' m es cs' (omega (arith, sum, broadcasts_cons e es)) idle.1
            (omega (arith, old, t.0)) t.1)

  -- a client behind by fourteen broadcasts is disconnected
  IsWaiting-closed :
      (i n : ℕ) (c : WsClient A) → 14 ≤ n → IsWaiting i n c → c.id ≡ i → c.is_conn_open ≡ false
  unfolding IsBehind backlog
  IsWaiting-closed i n c big h e = ground (arith, h.0.bounded, h.0.missed_closed, h.1 e)

  start-IsWaiting :
      (i : ℕ) (cs : List (WsClient A))
      → All IsSound cs
      → All (λ c. c.id ≡ i → c.is_registered ≡ true) cs
      → All (IsWaiting i 0) cs
  start-IsWaiting i [] sound reg = tt
  start-IsWaiting i (c ∷ cs) sound reg =
      let behind : IsBehind i 0 c = unfold IsBehind in λ e. (reg.0 e, λ _. omega arith) in
      ((sound.0, behind), start-IsWaiting i cs sound.1 reg.1)

-- In a state with the invariant of `run-IsSafe` where client i is connected and registered, let any
-- events happen in which its two goroutines and its handler take no part, at least fourteen of them
-- broadcasts. Then the hub has not panicked and has closed the client's connection.
pub stuck_disconnected :
    {A : Type 0} (i : ℕ) (es : List (Event A)) (cs : List (WsClient A))
    → All IsSound cs
    → i < length cs
    → All (λ c. c.id ≡ i → c.is_registered ≡ true) cs
    → All (IsIdle i) es
    → 14 ≤ broadcasts es
    → IsSafe (All (λ c. c.id ≡ i → c.is_conn_open ≡ false)) (run es cs)
stuck_disconnected i es cs sound old reg idle many =
    let m = broadcasts es in
    IsSafe-map _ _ (run es cs)
      (run-IsWaiting i 0 m es cs (omega arith) idle old (start-IsWaiting i cs sound reg))
      (All-map _ _ (λ c. IsWaiting-closed i m c many))
