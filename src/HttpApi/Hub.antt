-- ===== src/HttpApi/Hub.antt =====
-- api/internal/httpapi/ws.go: the Hub, with handleWS after the handshake, wsWriter and wsReader. The
-- clients are one list; h.clients is a flag of each. A step is one pass under h.mu or one turn of a
-- goroutine's loop, and Broadcast's closing of connections belongs to its pass.
use kamado_pool.Base.{
  ℕ, suc, ◌+◌, Bool, true, false, ◌&&◌, List, [], ◌∷◌, ◌++◌, Option, none, some, ltb, leb, ◌==◌,
  if◌then◌else◌, length,
}
pub mod Safety
pub mod Stuck

-- how far the handler of a client is: the client is in the hub, its goroutines run, wsReader returned
pub data Stage : Type 0 where
  opening serving left : Stage

pub record WsClient (A : Type 0) : Type 0 where
  pub id : ℕ  -- its address
  pub sends : List A
  pub is_send_closed : Bool
  pub drop_misses : ℕ
  pub is_registered : Bool
  pub is_conn_open : Bool
  pub stage : Stage
  pub is_writing : Bool  -- wsWriter has started and not returned

-- make(chan []byte, 8)
abbrev pub send_capacity : ℕ
send_capacity = 8

abbrev pub max_drop_misses : ℕ
max_drop_misses = 6

-- what readFrame returns to wsReader
pub data Incoming : Type 0 where
  read_error close ping other : Incoming

-- What happens, with the client it happens to. A payload is `none` where json.Marshal fails; the Bool
-- of a write is its success.
pub data Event (A : Type 0) : Type 0 where
  connected : Event A
  greeted : ℕ → Option A → Event A
  broadcast : Option A → Event A
  writer_turn : ℕ → Bool → Event A
  ticked : ℕ → Bool → Event A
  reader_turn : ℕ → Incoming → Event A

module _ {A : Type 0} where
  -- handleWS: the new client, added to the hub
  unfoldable pub new_client : ℕ → WsClient A
  new_client i = record {
    id = i;
    sends = [];
    is_send_closed = false;
    drop_misses = 0;
    is_registered = true;
    is_conn_open = true;
    stage = opening;
    is_writing = false;
  }

  -- a send in a `select` with a default; `none` is the panic of a send on a closed channel
  unfoldable pub offer : A → WsClient A → Option (Bool × WsClient A)
  offer p c =
      if c.is_send_closed
      then none
      else if ltb (length c.sends) send_capacity
      then some (true, record c { sends = c.sends ++ p ∷ [] })
      else some (false, c)

  -- the body of Broadcast's loop, and the closing that follows it
  unfoldable pub broadcast_to : A → WsClient A → Option (WsClient A)
  broadcast_to p c = elim (offer p c) [
    | none ↦ none
    | some (sent, c') ↦
        if sent
        then some (record c' { drop_misses = 0 })
        else some (record c' {
          drop_misses = suc c'.drop_misses;
          is_conn_open =
              if leb max_drop_misses (suc c'.drop_misses) then false else c'.is_conn_open;
        })
  ]

  -- remove; `none` is the panic of a second close
  unfoldable pub remove : WsClient A → Option (WsClient A)
  remove c =
      if c.is_registered
      then (if c.is_send_closed
          then none
          else some (record c { is_registered = false; is_send_closed = true }))
      else some c

  -- handleWS: the first snapshot, then the two goroutines
  unfoldable pub greet : Option A → WsClient A → Option (WsClient A)
  greet p c =
      let sent : Option (WsClient A) = elim p [
        | none ↦ some c
        | some a ↦ elim (offer a c) [ none ↦ none | some (_, c') ↦ some c' ]
      ] in
      elim sent [ none ↦ none | some c' ↦ some (record c' { stage = serving; is_writing = true }) ]

  -- wsWriter after a failed write, and at the end of the channel
  abbrev pub stop_writer : WsClient A → WsClient A
  stop_writer c = record c { is_conn_open = false; is_writing = false }

  -- wsWriter: a turn on the channel `send`; without a payload in an open channel it waits
  unfoldable pub write : Bool → WsClient A → WsClient A
  write ok c = elim (c.sends) [
    | [] ↦ if c.is_send_closed then stop_writer c else c
    | _ ∷ ps ↦ let c' : WsClient A = record c { sends = ps } in if ok then c' else stop_writer c'
  ]

  -- wsReader: a turn; its return runs the deferred remove
  unfoldable pub read : Incoming → WsClient A → Option (WsClient A)
  read read_error c = remove (record c { stage = left })
  read close c = remove (record c { stage = left })
  read ping c = some c
  read other c = some c

  abbrev pub is_serving : WsClient A → Bool
  is_serving c = elim (c.stage) [ serving ↦ true | _ ↦ false ]

  abbrev pub is_opening : WsClient A → Bool
  is_opening c = elim (c.stage) [ opening ↦ true | _ ↦ false ]

  -- what an event does to a client; what is not this client's, or cannot happen yet, does nothing
  unfoldable pub react : Event A → WsClient A → Option (WsClient A)
  react connected c = some c
  react (greeted i p) c = if c.id == i && is_opening c then greet p c else some c
  react (broadcast none) c = some c
  react (broadcast (some p)) c = if c.is_registered then broadcast_to p c else some c
  react (writer_turn i ok) c = if c.id == i && c.is_writing then some (write ok c) else some c
  react (ticked i ok) c =
      if c.id == i && c.is_writing then some (if ok then c else stop_writer c) else some c
  react (reader_turn i f) c = if c.id == i && is_serving c then read f c else some c

  unfoldable pub react_all : Event A → List (WsClient A) → Option (List (WsClient A))
  react_all e [] = some []
  react_all e (c ∷ cs) = elim (react e c) [
    | none ↦ none
    | some c' ↦ elim (react_all e cs) [ none ↦ none | some cs' ↦ some (c' ∷ cs') ]
  ]

  -- a step of the program; `none` is a panic
  unfoldable pub step : Event A → List (WsClient A) → Option (List (WsClient A))
  step connected cs = some (new_client (length cs) ∷ cs)
  step e cs = react_all e cs

  unfoldable pub run : List (Event A) → List (WsClient A) → Option (List (WsClient A))
  run [] cs = some cs
  run (e ∷ es) cs = elim (step e cs) [ none ↦ none | some cs' ↦ run es cs' ]
