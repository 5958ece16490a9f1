-- ===== src/Web/Proxy/ReadOnly.antt =====
-- What the proxy posts upstream.
use ponshot.Base.{
  ℕ, true, Option, none, some, List, [], ◌∷◌, ◌≡◌, ◌⊎◌, All, inl, inr, refl, arith, Bool-cases,
}
use ponshot.Base.Text.{same_text, same_text_lem, Text}
use ponshot.Web.Proxy.{RpcCall, Body, has, permits, blocked, allowed, calls_of, screen, post}

-- A name of the list.
abbrev pub Listed : List Text → Text → Type 0
Listed [] name = ⊥
Listed (a ∷ names) name = (name ≡ a) ⊎ Listed names name

-- A call that names a method of the list.
abbrev pub IsListed : List Text → RpcCall → Type 0
IsListed names c = (name : Text) × (c.method ≡ some name) × Listed names name

has-Listed : (names : List Text) (name : Text) → has names name ≡ true → Listed names name
unfolding has
has-Listed [] name h = absurd (ground arith)
has-Listed (a ∷ names) name h = elim (Bool-cases (same_text name a)) [
  | inl same ↦ inl (same_text_lem name a same)
  | inr other ↦ inr (has-Listed names name (ground arith))
]

permits-Listed :
    (names : List Text) (m : Option Text)
    → permits names m ≡ true
    → (name : Text) × (m ≡ some name) × Listed names name
unfolding permits
permits-Listed names none h = absurd (ground arith)
permits-Listed names (some []) h = absurd (ground arith)
permits-Listed names (some (c ∷ t)) h = (c ∷ t, refl, has-Listed names (c ∷ t) h)

blocked_none :
    (names : List Text) (cs : List RpcCall) → blocked names cs ≡ [] → All (IsListed names) cs
unfolding blocked
blocked_none names [] h = tt
blocked_none names (c ∷ cs) h = elim (Bool-cases (permits names c.method)) [
  | inl hit ↦ (permits-Listed names c.method hit, blocked_none names cs (ground arith))
  | inr miss ↦ absurd (ground arith)
]

screen-Listed :
    (body : Body) (upstream : Option ℕ) (cs : List RpcCall)
    → (cs ≡ [] → All (IsListed allowed) (calls_of body))
    → All (λ b. All (IsListed allowed) (calls_of b)) (screen body upstream cs).1
screen-Listed body upstream [] h = (h refl, tt)
screen-Listed body upstream (c ∷ cs) h = tt

-- Whatever is posted to the proxy, each body that it posts upstream names a method of the list in
-- every one of its calls, those of a batch included.
pub post-Listed :
    (body : Option Body) (upstream : Option ℕ)
    → All (λ b. All (IsListed allowed) (calls_of b)) (post body upstream).1
unfolding post
post-Listed none upstream = tt
post-Listed (some body) upstream =
    screen-Listed body upstream (blocked allowed (calls_of body))
      (blocked_none allowed (calls_of body))
