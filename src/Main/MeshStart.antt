-- ===== src/Main/MeshStart.antt =====
-- ipfsnode_pubsub.go: startMesh, as the topic and the subscription that it opens and the goroutines
-- that it starts.
use pevo_pinner.Prelude.{
  ◌≡◌, refl, sym, ap, ◌∙◌, length, length-append, take, drop, take-length-append, inl, inr, Bool,
  true, false, not, none, some, List, [], ◌∷◌, ◌++◌, if◌then◌else◌, Bool-cases, Option-cases, arith,
}
use pevo_pinner.Prelude.Text.{Text, codes}
use pevo_pinner.Mesh.Goroutines.{Goroutines, started, GoReach, start}
use pevo_pinner.Main.{MeshOptions, with_mesh_defaults}

-- Which calls return no error.
pub record MeshCalls : Type 0 where
  pub makes_pubsub : Bool
  pub joins : Bool
  pub subscribes : Bool

pub data MeshError : Type 0 where
  no_app_tag pubsub pubsub_join pubsub_subscribe : MeshError

pub data MeshStep : Type 0 where
  joined : (topic : Text) → MeshStep
  topic_closed : MeshStep
  subscribed : MeshStep

pub data MeshStart : Type 0 where
  refused : MeshError → MeshStart
  running : MeshOptions → Goroutines → MeshStart

-- `fmt.Sprintf(meshTopicFormat, opts.AppTag)`
abbrev pub topic_of : Text → Text
topic_of app_tag = codes "/pevo-pinners/" ++ (app_tag ++ codes "/heartbeat/1.0.0")

unfoldable pub start_mesh : MeshCalls → MeshOptions → List MeshStep × MeshStart
start_mesh calls opts = elim (with_mesh_defaults opts) [
  | none ↦ ([], refused no_app_tag)
  | some o ↦
      if not calls.makes_pubsub
      then ([], refused pubsub)
      else (if not calls.joins
          then ([], refused pubsub_join)
          else (if not calls.subscribes
              then (joined (topic_of o.app_tag) ∷ topic_closed ∷ [], refused pubsub_subscribe)
              else (
                joined (topic_of o.app_tag) ∷ subscribed ∷ [],
                running o (started o.advertise_off),
              )))
]

-- The topic is open behind the steps.
unfoldable pub is_joined : List MeshStep → Bool → Bool
is_joined [] b = b
is_joined (joined t ∷ steps) b = is_joined steps true
is_joined (topic_closed ∷ steps) b = is_joined steps false
is_joined (subscribed ∷ steps) b = is_joined steps b

-- What startMesh may come to.
abbrev pub IsStarted : MeshOptions → List MeshStep × MeshStart → Type 0
IsStarted opts (steps, refused e) = is_joined steps false ≡ false
IsStarted opts (steps, running o g) =
    (is_joined steps false ≡ true) × (with_mesh_defaults opts ≡ some o) × GoReach o.advertise_off g

-- If startMesh returns an error, it leaves no topic open, and if it returns a manager, the topic is
-- open, the options are those completed with the defaults, and the goroutines are those of a start.
pub start_mesh-IsStarted :
    (calls : MeshCalls) (opts : MeshOptions) → IsStarted opts (start_mesh calls opts)
unfolding start_mesh is_joined
start_mesh-IsStarted calls opts = elim (Option-cases (with_mesh_defaults opts)) [
  | inl e ↦ rw (e, start_mesh) refl
  | inr (o, e) ↦ elim (Bool-cases calls.makes_pubsub) [
    | inr f ↦ rw (e, start_mesh) (simp f refl)
    | inl f ↦ elim (Bool-cases calls.joins) [
      | inr g ↦ rw (e, start_mesh) (simp (f, g) refl)
      | inl g ↦ elim (Bool-cases calls.subscribes) [
        | inr h ↦ rw (e, start_mesh) (simp (f, g, h) refl)
        | inl h ↦ rw (e, start_mesh) (simp (f, g, h) (refl, e, start))
      ]
    ]
  ]
]

same_front : (a b behind : Text) → a ++ behind ≡ b ++ behind → a ≡ b
same_front a b behind e =
    let sizes : length a ≡ length b =
      omega (arith, ap length e, length-append {0} a behind, length-append {0} b behind) in
    sym (take-length-append a behind)
    ∙ ap (take (length a)) e
    ∙ rw sizes (take-length-append b behind)

-- Two meshes meet on one topic only if they have one tag.
pub topic_of-injective : (a b : Text) → topic_of a ≡ topic_of b → a ≡ b
topic_of-injective a b e =
    same_front a b (codes "/heartbeat/1.0.0") (ap (drop (length (codes "/pevo-pinners/"))) e)
