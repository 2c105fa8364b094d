-- ===== src/Server/Serve/Safe.antt =====
-- ServeHTTP: a request with GET or HEAD changes nothing.
use pevo_pinner.Prelude.{
  ℕ, ◌-◌, ◌≡◌, refl, sym, ◌⊎◌, inl, inr, Bool, true, false, ◌||◌, Option, none, some, List, [], ◌∷◌,
  ◌++◌, Bool-cases, Option-cases, All, arith,
}
use pevo_pinner.Prelude.Text.{Text, codes, same, same_iff}
use pevo_pinner.AutoPin.Rule.{AutoPinRule}
use pevo_pinner.Backend.{IpfsBackend, IsPinSet}
use pevo_pinner.Server.{Server, remaining, handle_status}
use pevo_pinner.Server.Status.{handle_papers_lem, count_loop_lem}
use pevo_pinner.Server.Routes.{
  Route, Pattern, accepts, match_pattern, find_pattern, handler_patterns, all_patterns, is_exact,
  ends_in_slash, some_path, with_slash, dispatch,
}
use pevo_pinner.Server.Serve.{Moment, ApiRequest, recovered, serve_route, serve_http}

-- The routes whose handlers only read.
abbrev pub is_read : Route → Bool
is_read Route.papers = true
is_read Route.status = true
is_read Route.get_rules = true
is_read Route.ipfs_proxy = true
is_read Route.static_files = true
is_read Route.move_to_slash = true
is_read Route.method_not_allowed = true
is_read Route.not_found = true
is_read _ = false

IsSafe : (method : Text) → Pattern → Type 0
IsSafe method p = (accepts p method ≡ false) ⊎ ((ws : List Text) → is_read (p.route ws) ≡ true)

find_pattern-is_read :
    (method : Text) (path : List Text) (ps : List Pattern) (p : Pattern) (r : Route)
    → All (IsSafe method) ps
    → find_pattern method path ps ≡ some (p, r)
    → is_read r ≡ true
unfolding find_pattern match_pattern IsSafe
find_pattern-is_read method path [] p r safe e = cc
find_pattern-is_read method path (q ∷ ps) p r (here, safe) e =
    elim (Option-cases (match_pattern q method path)) [
      | inl f ↦ find_pattern-is_read method path ps p r safe (rw (f, find_pattern) at e)
      | inr (ws, f) ↦
          let found : some (q, q.route ws) ≡ some (p, r) = rw (f, find_pattern) at e in
          let route : q.route ws ≡ r = cc in
          elim here [
            | inl refuses ↦ let gone : none ≡ some ws = rw (refuses, match_pattern) at f in cc
            | inr reads ↦ rw (sym route) (reads ws)
          ]
    ]

-- The methods that only read.
abbrev pub is_safe_method : Text → Bool
is_safe_method method = same method (codes "GET") || same method (codes "HEAD")

-- Of the patterns in their order, those for another method refuse it, and the others read.
get-IsSafe : All (IsSafe (codes "GET")) all_patterns
unfolding IsSafe accepts handler_patterns same
get-IsSafe = (
  inr (λ ws. refl),
  (
    inl refl,
    (
      inl refl,
      (
        inl refl,
        (
          inr (λ ws. refl),
          (
            inr (λ ws. refl),
            (
              inl refl,
              (
                inl refl,
                (
                  inl refl,
                  (inl refl, (inl refl, (inl refl, (inr (λ ws. refl), (inr (λ ws. refl), tt))))),
                ),
              ),
            ),
          ),
        ),
      ),
    ),
  ),
)

head-IsSafe : All (IsSafe (codes "HEAD")) all_patterns
unfolding IsSafe accepts handler_patterns same
head-IsSafe = (
  inr (λ ws. refl),
  (
    inl refl,
    (
      inl refl,
      (
        inl refl,
        (
          inr (λ ws. refl),
          (
            inr (λ ws. refl),
            (
              inl refl,
              (
                inl refl,
                (
                  inl refl,
                  (inl refl, (inl refl, (inl refl, (inr (λ ws. refl), (inr (λ ws. refl), tt))))),
                ),
              ),
            ),
          ),
        ),
      ),
    ),
  ),
)

all_patterns-IsSafe :
    (method : Text) → is_safe_method method ≡ true → All (IsSafe method) all_patterns
all_patterns-IsSafe method h = elim (Bool-cases (same method (codes "GET"))) [
  | inl e ↦ rw ((same_iff method (codes "GET")).0 e) get-IsSafe
  | inr e ↦
      let head : same method (codes "HEAD") ≡ true = ground (arith, h, e) in
      rw ((same_iff method (codes "HEAD")).0 head) head-IsSafe
]

with_slash-is_read :
    (method : Text) (path : List Text) (otherwise : Route)
    → is_read otherwise ≡ true
    → is_read (with_slash method path otherwise) ≡ true
unfolding with_slash
with_slash-is_read method path otherwise h = elim (Bool-cases (ends_in_slash path)) [
  | inl e ↦ rw (e, with_slash) h
  | inr e ↦ elim (Option-cases (find_pattern method (path ++ [] ∷ []) all_patterns)) [
    | inl f ↦ rw (e, f, with_slash) h
    | inr ((p, r), f) ↦ elim (Bool-cases (is_exact p (path ++ [] ∷ []))) [
      | inl g ↦ rw (e, f, with_slash) (rw g refl)
      | inr g ↦ rw (e, f, with_slash) (rw g h)
    ]
  ]
]

dispatch-is_read :
    (method : Text) (path : List Text)
    → is_safe_method method ≡ true
    → is_read (dispatch method path) ≡ true
unfolding dispatch
dispatch-is_read method path h = elim (Option-cases (find_pattern method path all_patterns)) [
  | inl e ↦
      rw (e, dispatch)
        (with_slash-is_read method path _ (elim (Bool-cases (some_path path all_patterns)) [
          | inl f ↦ rw f refl
          | inr f ↦ rw f refl
        ]))
  | inr ((p, r), e) ↦
      let reads =
        find_pattern-is_read method path all_patterns p r (all_patterns-IsSafe method h) e in
      elim (Bool-cases (is_exact p path)) [
        | inl f ↦ rw (e, dispatch) (rw f reads)
        | inr f ↦ rw (e, dispatch) (rw f (with_slash-is_read method path r reads))
      ]
]

module _ (b : IpfsBackend) (member : b.State → Text → Bool) (set : IsPinSet b member)
    (marshal : List AutoPinRule → Option Text) (unmarshal : Text → Option (List AutoPinRule))
    (split_host_port : Text → Option (Text × Text)) (lower : Text → Text)
    (parse_date : Text → Option ℕ) where
  handle_status-same :
      (t : Moment b) (s : Server b)
      → (recovered b marshal unmarshal split_host_port lower parse_date s
          (handle_status b t.call t.now s)).0
        ≡ s
  unfolding handle_status
  handle_status-same t s = elim (Option-cases (remaining s.refresh (t.now - s.start_time))) [
    | inl e ↦ rw (e, handle_status) refl
    | inr (left, e) ↦
        rw (e, handle_status)
          (rw (count_loop_lem b member set t.call s.discovery.items 0 s.backend) refl)
  ]

  serve_route-same :
      (r : Route) (t : Moment b) (q : ApiRequest) (s : Server b)
      → is_read r ≡ true
      → (serve_route b marshal unmarshal split_host_port lower parse_date r t q s).0 ≡ s
  unfolding serve_route
  serve_route-same Route.papers t q s h = rw (handle_papers_lem b member set t.call s) refl
  serve_route-same Route.status t q s h = handle_status-same t s
  serve_route-same Route.get_rules t q s h = refl
  serve_route-same Route.ipfs_proxy t q s h = refl
  serve_route-same Route.static_files t q s h = refl
  serve_route-same Route.move_to_slash t q s h = refl
  serve_route-same Route.method_not_allowed t q s h = refl
  serve_route-same Route.not_found t q s h = refl
  serve_route-same _ t q s h = cc

  -- Over a backend that is a set of CIDs, a request with GET or HEAD leaves the whole state of the
  -- server as it was, whatever its path: the pins, the rules with their file, and the discovery.
  pub serve_http-safe :
      (t : Moment b) (q : ApiRequest) (s : Server b)
      → is_safe_method q.method ≡ true
      → (serve_http b marshal unmarshal split_host_port lower parse_date t q s).0 ≡ s
  unfolding serve_http
  serve_http-safe t q s h =
      serve_route-same (dispatch q.method q.path) t q s (dispatch-is_read q.method q.path h)
