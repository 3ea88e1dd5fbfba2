-- ===== src/Handlers/Routing.antt =====
-- backend/internal/handlers: which registry takes a path.
use mirrorhub.Base.{
  ◌≡◌, refl, sym, ◌∙◌, Bool, true, false, ◌||◌, [], ◌∷◌, ◌++◌, arith, Bool-cases, inl, inr,
}
use mirrorhub.Base.Text.{Text, codes, has_prefix, ◌===◌}
use mirrorhub.Handlers.{normalize_path}
use mirrorhub.Handlers.Goproxy.{is_sum_db_path, is_goproxy_path}
use mirrorhub.Handlers.Npm.{is_reserved_proxy_path}
use mirrorhub.Handlers.HuggingFace.{is_api_path, is_hub_package_path, is_hugging_face_path}

pub normalize_path_twice : (p : Text) → normalize_path (normalize_path p) ≡ normalize_path p
unfolding normalize_path has_prefix
normalize_path_twice [] = refl
normalize_path_twice (c ∷ p) = ground arith

has_prefix-append : (p q s : Text) → has_prefix (p ++ q) s ≡ true → has_prefix p s ≡ true
unfolding has_prefix
has_prefix-append [] q s h = refl
has_prefix-append (c ∷ p) q [] h = cc
has_prefix-append (c ∷ p) q (d ∷ s) h = ground (arith, has_prefix-append p q s)

same_text-≡ : (a b : Text) → (a === b) ≡ true → a ≡ b
same_text-≡ a b h = ground arith

api_itself :
    (p q : Text)
    → has_prefix (codes "/api/") p ≡ true
    → (q === p) ≡ true
    → has_prefix (codes "/api/") q ≡ true
api_itself p q h e = rw (same_text-≡ q p e) h

api_models : has_prefix (codes "/api/") (codes "/api/models") ≡ true
unfolding has_prefix
api_models = refl

api_datasets : has_prefix (codes "/api/") (codes "/api/datasets") ≡ true
unfolding has_prefix
api_datasets = refl

-- The API of the Hub.
api_lem :
    (q : Text) → normalize_path q ≡ q → is_api_path q ≡ true → has_prefix (codes "/api/") q ≡ true
unfolding is_api_path
api_lem q e h = ground (
  arith,
  e,
  has_prefix-append (codes "/api/") (codes "models/") q,
  has_prefix-append (codes "/api/") (codes "datasets/") q,
  api_itself (codes "/api/models") q api_models,
  api_itself (codes "/api/datasets") q api_datasets,
  has_prefix-append (codes "/api/") (codes "resolve-cache/models/") q,
  has_prefix-append (codes "/api/") (codes "resolve-cache/datasets/") q,
)

goproxy_reserved :
    (q : Text) → normalize_path q ≡ q → is_goproxy_path q ≡ true → is_reserved_proxy_path q ≡ true
unfolding is_goproxy_path is_reserved_proxy_path is_sum_db_path
goproxy_reserved q e h = ground (arith, e)

hub_reserved :
    (q : Text)
    → normalize_path q ≡ q
    → is_hub_package_path q ≡ true
    → is_reserved_proxy_path q ≡ true
unfolding is_hub_package_path is_reserved_proxy_path
hub_reserved q e h = ground (arith, e)

reserved-normalize_path :
    (p : Text) → is_reserved_proxy_path (normalize_path p) ≡ is_reserved_proxy_path p
unfolding is_reserved_proxy_path
reserved-normalize_path p = rw (normalize_path_twice p) refl

hugging_face_reserved :
    (q : Text)
    → normalize_path q ≡ q
    → is_hugging_face_path q ≡ true
    → is_reserved_proxy_path q ≡ true
unfolding is_hugging_face_path is_reserved_proxy_path
hugging_face_reserved q e h = ground (arith, e, api_lem q e, hub_reserved q e)

goproxy-normalize_path : (p : Text) → is_goproxy_path (normalize_path p) ≡ is_goproxy_path p
unfolding is_goproxy_path
goproxy-normalize_path p = rw (normalize_path_twice p) refl

hub-normalize_path : (p : Text) → is_hugging_face_path (normalize_path p) ≡ is_hugging_face_path p
unfolding is_hugging_face_path
hub-normalize_path p = rw (normalize_path_twice p) refl

either_second : {a b : Bool} → a ≡ false → (a || b) ≡ true → b ≡ true
either_second {a} {b} n h = ground (arith, n, h)

-- A path that the module proxy for Go or the Hub of Hugging Face takes is one that npm leaves to
-- others, also where the path lacks its first slash.
pub others_reserved :
    (path : Text)
    → (is_goproxy_path path || is_hugging_face_path path) ≡ true
    → is_reserved_proxy_path path ≡ true
others_reserved path h =
    let q = normalize_path path in
    let go = goproxy_reserved q (normalize_path_twice path) in
    let hub = hugging_face_reserved q (normalize_path_twice path) in
    let same = goproxy-normalize_path path in
    let same_hub = hub-normalize_path path in
    let reserved = reserved-normalize_path path in
    elim (Bool-cases (is_goproxy_path path)) [
      | inl g ↦ sym reserved ∙ go (same ∙ g)
      | inr n ↦ sym reserved ∙ hub (same_hub ∙ either_second n h)
    ]
