-- ===== src/HttpApi/Routes/Boosts.antt =====
-- What a request must be to change the accelerator.
use kamado_pool.Base.{
  ◌≡◌, refl, ◌⊎◌, inl, inr, Bool, true, false, Option, none, some, String, str_eq, arith,
  if◌then◌else◌, Bool-cases, Option-cases,
}
use kamado_pool.Base.Time.{Time}
use kamado_pool.Base.Float.{Float64}
use kamado_pool.State.Types.{Aggregator}
use kamado_pool.State.Codec.{Codec}
use kamado_pool.HttpApi.Requests.{
  Server, Request, Io, Response, is_txid, origin_allowed, same_origin,
}
use kamado_pool.HttpApi.Handlers.{
  handle_accelerate, handle_cancel, handle_max, handle_rebuild, handle_agg, subscribe, handle_ws,
  reading,
}
use kamado_pool.HttpApi.Routes.{get_route, post_handler, route, serve}

-- A request of an allowed origin whose body asks for a boost of a transaction, named by 64 hexadecimal
-- digits, to a rate above 0 and at most 2000, or for the end of the boost of such a transaction.
pub data IsBoostRequest {F : Type 0} ⦃fl : Float64 F⦄ (io : Io F) (r : Request) : Type 0 where
  boost :
      (txid : String) (rate : F)
      → origin_allowed io r ≡ true
      → io.decode_boost r.body ≡ some (txid, rate)
      → is_txid txid ≡ true
      → fl.le rate fl.nought ≡ false
      → fl.lt (fl.of_int 2000) rate ≡ false
      → IsBoostRequest io r
  end_boost :
      (txid : String)
      → origin_allowed io r ≡ true
      → io.decode_cancel r.body ≡ some txid
      → is_txid txid ≡ true
      → IsBoostRequest io r

module _ {F : Type 0} ⦃fl : Float64 F⦄ (codec : Codec F) (io : Io F) (now : Time)
    (r : Request) where
  abbrev Handler : Type 0
  Handler = Request → Server F → Server F × Response F

  -- a handler that leaves the accelerator as it is, unless the request is one for a boost
  abbrev IsCareful : Handler → Type 0
  IsCareful h = (s : Server F) → ((h r s).0.acc ≡ s.acc) ⊎ IsBoostRequest io r

  data IsCarefulRoute : Option Handler → Type 0 where
    no_route : IsCarefulRoute none
    careful : (h : Handler) → IsCareful h → IsCarefulRoute (some h)

  IsCarefulRoute-if :
      (b : Bool) {o p : Option Handler}
      → IsCarefulRoute o
      → IsCarefulRoute p
      → IsCarefulRoute (if b then o else p)
  IsCarefulRoute-if true h k = h
  IsCarefulRoute-if false h k = k

  same_origin-IsCareful :
      (h : Handler) → (origin_allowed io r ≡ true → IsCareful h) → IsCareful (same_origin io h)
  unfolding same_origin
  same_origin-IsCareful h f s = elim (Bool-cases (origin_allowed io r)) [
    | inl e ↦ rw e (f e s)
    | inr e ↦ inl (rw e refl)
  ]

  handle_accelerate-IsCareful :
      origin_allowed io r ≡ true → IsCareful (handle_accelerate codec io now)
  unfolding handle_accelerate
  handle_accelerate-IsCareful ok s = elim (Option-cases s.acc) [
    | inl e ↦ inl (ground arith)
    | inr (acc, e) ↦ elim (Option-cases (io.decode_boost r.body)) [
      | inl d ↦ inl (ground arith)
      | inr ((txid, rate), d) ↦ elim (Bool-cases (is_txid txid)) [
        | inr t ↦ inl (ground arith)
        | inl t ↦ elim (Bool-cases (fl.le rate fl.nought)) [
          | inl p ↦ inl (ground arith)
          | inr p ↦ elim (Bool-cases (fl.lt (fl.of_int 2000) rate)) [
            | inl q ↦ inl (ground arith)
            | inr q ↦ inr (boost txid rate ok d t p q)
          ]
        ]
      ]
    ]
  ]

  handle_cancel-IsCareful : origin_allowed io r ≡ true → IsCareful (handle_cancel codec io now)
  unfolding handle_cancel
  handle_cancel-IsCareful ok s = elim (Option-cases s.acc) [
    | inl e ↦ inl (ground arith)
    | inr (acc, e) ↦ elim (Option-cases (io.decode_cancel r.body)) [
      | inl d ↦ inl (ground arith)
      | inr (txid, d) ↦ elim (Bool-cases (is_txid txid)) [
        | inr t ↦ inl (ground arith)
        | inl t ↦ inr (end_boost txid ok d t)
      ]
    ]
  ]

  handle_max-IsCareful : IsCareful (handle_max codec io now)
  unfolding handle_max
  handle_max-IsCareful s = inl (ground arith)

  handle_ws-IsCareful : IsCareful (handle_ws codec io now)
  unfolding handle_ws subscribe
  handle_ws-IsCareful s = inl (ground arith)

  reading-IsCareful : (f : Server F → Response F) → IsCarefulRoute (some (reading codec io now f))
  unfolding reading
  reading-IsCareful f = careful _ (λ s. inl refl)

  handle_agg-IsCareful : (f : Aggregator F → Aggregator F) → IsCareful (handle_agg codec io now f)
  unfolding handle_agg
  handle_agg-IsCareful f s = inl refl

  handle_rebuild-IsCareful : IsCareful (handle_rebuild codec io now)
  unfolding handle_rebuild
  handle_rebuild-IsCareful s = inl refl

  get_route-IsCareful : IsCarefulRoute (get_route codec io now r.path)
  unfolding get_route
  get_route-IsCareful = IsCarefulRoute-if (str_eq r.path "/api/health") (reading-IsCareful _) (
      IsCarefulRoute-if (str_eq r.path "/api/pool") (reading-IsCareful _) (
        IsCarefulRoute-if (str_eq r.path "/api/users") (reading-IsCareful _) (
          IsCarefulRoute-if (str_eq r.path "/api/workers") (reading-IsCareful _) (
            IsCarefulRoute-if (str_eq r.path "/api/clients") (reading-IsCareful _) (
              IsCarefulRoute-if (str_eq r.path "/api/blocks") (reading-IsCareful _) (
                IsCarefulRoute-if (str_eq r.path "/api/snapshot") (reading-IsCareful _) (
                  IsCarefulRoute-if (str_eq r.path "/api/ws")
                    (careful _ (same_origin-IsCareful _ (λ _. handle_ws-IsCareful)))
                    (IsCarefulRoute-if (str_eq r.path "/api/admin/debug-blocks")
                      (reading-IsCareful _)
                      (IsCarefulRoute-if (str_eq r.path "/api/accelerate/list")
                        (reading-IsCareful _) no_route)))))))))

  -- a handler of POST behind the check
  guarded : (o : Option Handler) → Option Handler
  guarded o = elim o [ none ↦ none | some h ↦ some (same_origin io h) ]

  guarded-none : IsCarefulRoute (guarded none)
  unfolding guarded
  guarded-none = no_route

  guarded-if :
      (b : Bool) (h : Handler) (o : Option Handler)
      → (origin_allowed io r ≡ true → IsCareful h)
      → IsCarefulRoute (guarded o)
      → IsCarefulRoute (guarded (if b then some h else o))
  unfolding guarded
  guarded-if true h o f rest = careful _ (same_origin-IsCareful h f)
  guarded-if false h o f rest = rest

  post_handler-IsCareful : IsCarefulRoute (guarded (post_handler codec io now r.path))
  unfolding post_handler
  post_handler-IsCareful =
      guarded-if (str_eq r.path "/api/admin/reset-latency") _ _ (λ _. handle_agg-IsCareful _)
        (guarded-if (str_eq r.path "/api/admin/ack-best") _ _ (λ _. handle_agg-IsCareful _)
          (guarded-if (str_eq r.path "/api/admin/reset-ack-best") _ _ (λ _. handle_agg-IsCareful _)
            (guarded-if (str_eq r.path "/api/admin/rebuild-share-stats") _ _
              (λ _. handle_rebuild-IsCareful)
              (guarded-if (str_eq r.path "/api/accelerate") _ _ handle_accelerate-IsCareful (
                guarded-if (str_eq r.path "/api/accelerate/cancel") _ _ handle_cancel-IsCareful (
                  guarded-if (str_eq r.path "/api/accelerate/max") _ _ (λ _. handle_max-IsCareful)
                    guarded-none))))))

  route-IsCareful : IsCarefulRoute (route codec io now r)
  unfolding route guarded
  route-IsCareful =
      IsCarefulRoute-if _ get_route-IsCareful (IsCarefulRoute-if _ post_handler-IsCareful no_route)

  serve_careful :
      (o : Option Handler) (s : Server F) (page : Response F)
      → IsCarefulRoute o
      → ((elim o as (λ _. Server F × Response F) [ none ↦ (s, page) | some h ↦ h r s ]).0.acc
          ≡ s.acc)
        ⊎ IsBoostRequest io r
  serve_careful none s page q = inl refl
  serve_careful (some h) s page (careful _ f) = f s

  -- On every route, a request leaves the accelerator as it is, its database and bitcoind's priorities
  -- included, unless its origin is allowed and its body asks for a boost of a transaction, named by 64
  -- hexadecimal digits, to a rate above 0 and at most 2000, or for the end of such a transaction's boost.
  pub serve-boost : (s : Server F) → ((serve codec io now r s).0.acc ≡ s.acc) ⊎ IsBoostRequest io r
  unfolding serve
  serve-boost s = serve_careful (route codec io now r) s _ route-IsCareful
