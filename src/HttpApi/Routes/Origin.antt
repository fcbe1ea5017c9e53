-- ===== src/HttpApi/Routes/Origin.antt =====
-- What a request of another origin, and an invalid one, can do.
use kamado_pool.Base.{◌≡◌, refl, ap, Bool, true, false, Option, none, some, str_eq, if◌then◌else◌}
use kamado_pool.Base.Time.{Time}
use kamado_pool.Base.Float.{Float64}
use kamado_pool.State.Codec.{Codec}
use kamado_pool.HttpApi.Requests.{
  Server, Request, Io, Response, respond, problem, origin_allowed, same_origin,
}
use kamado_pool.HttpApi.Handlers.{handle_ws, reading}
use kamado_pool.HttpApi.Routes.{get_route, post_handler, route, serve}

module _ {F : Type 0} ⦃fl : Float64 F⦄ (codec : Codec F) (io : Io F) (now : Time)
    (r : Request) where
  abbrev Handler : Type 0
  Handler = Request → Server F → Server F × Response F

  -- a route whose handler, if there is one, leaves every server as it is for this request
  data IsQuiet : Option Handler → Type 0 where
    no_route : IsQuiet none
    quiet : (h : Handler) → ((s : Server F) → (h r s).0 ≡ s) → IsQuiet (some h)

  IsQuiet-if :
      (b : Bool) {o p : Option Handler} → IsQuiet o → IsQuiet p → IsQuiet (if b then o else p)
  IsQuiet-if true h k = h
  IsQuiet-if false h k = k

  refuse :
      (h : Handler) (s : Server F)
      → origin_allowed io r ≡ false
      → same_origin io h r s ≡ (s, respond 403 (problem "cross-origin request refused"))
  unfolding same_origin
  refuse h s foreign = rw foreign refl

  IsQuiet-reading : (f : Server F → Response F) → IsQuiet (some (reading codec io now f))
  unfolding reading
  IsQuiet-reading f = quiet _ (λ s. refl)

  get-IsQuiet : origin_allowed io r ≡ false → IsQuiet (get_route codec io now r.path)
  unfolding get_route
  get-IsQuiet foreign = IsQuiet-if (str_eq r.path "/api/health") (IsQuiet-reading _) (
      IsQuiet-if (str_eq r.path "/api/pool") (IsQuiet-reading _) (
        IsQuiet-if (str_eq r.path "/api/users") (IsQuiet-reading _) (
          IsQuiet-if (str_eq r.path "/api/workers") (IsQuiet-reading _) (
            IsQuiet-if (str_eq r.path "/api/clients") (IsQuiet-reading _) (
              IsQuiet-if (str_eq r.path "/api/blocks") (IsQuiet-reading _) (
                IsQuiet-if (str_eq r.path "/api/snapshot") (IsQuiet-reading _) (
                  IsQuiet-if (str_eq r.path "/api/ws")
                    (quiet _ (λ s. ap (λ p. p.0) (refuse (handle_ws codec io now) s foreign)))
                    (IsQuiet-if (str_eq r.path "/api/admin/debug-blocks") (IsQuiet-reading _) (
                      IsQuiet-if (str_eq r.path "/api/accelerate/list") (IsQuiet-reading _)
                        no_route)))))))))

  post-IsQuiet :
      (o : Option Handler)
      → origin_allowed io r ≡ false
      → IsQuiet (elim o [ none ↦ none | some h ↦ some (same_origin io h) ])
  post-IsQuiet none foreign = no_route
  post-IsQuiet (some h) foreign = quiet _ (λ s. ap (λ p. p.0) (refuse h s foreign))

  route-IsQuiet : origin_allowed io r ≡ false → IsQuiet (route codec io now r)
  unfolding route
  route-IsQuiet foreign =
      IsQuiet-if _ (get-IsQuiet foreign)
        (IsQuiet-if _ (post-IsQuiet (post_handler codec io now r.path) foreign) no_route)

  quiet_serve :
      (o : Option Handler) (s : Server F) (other : Response F)
      → IsQuiet o
      → (elim o as (λ _. Server F × Response F) [ none ↦ (s, other) | some h ↦ h r s ]).0 ≡ s
  quiet_serve none s other q = refl
  quiet_serve (some h) s other (quiet _ f) = f s

  -- A request whose Origin header names another host than the one it is sent to changes nothing: not
  -- the aggregator, not the accelerator, and not the set of WebSocket clients.
  pub serve-cross_origin :
      (s : Server F) → origin_allowed io r ≡ false → (serve codec io now r s).0 ≡ s
  unfolding serve
  serve-cross_origin s foreign = quiet_serve (route codec io now r) s _ (route-IsQuiet foreign)
