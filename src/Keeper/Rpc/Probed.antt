-- ===== src/Keeper/Rpc/Probed.antt =====
-- The health of the endpoints after a probe, in whatever order the endpoints answer.
use mathlib.Core.List.{append_assoc, append-nil}
use ponshot.Base.Every.{IsDistinct, All-map}
use ponshot.Base.{
  ℕ, ◌≡◌, ◌≢◌, refl, Bool, true, false, Bool-cases, inl, inr, List, [], ◌∷◌, ◌++◌, map, All, any,
  ◌==◌, ==_iff, arith, if◌then◌else◌, ap, ◌∙◌, sym, ◌||◌,
}
use ponshot.Indexer.Table.{upsert}
use ponshot.Keeper.Rpc.{
  RpcHealth, ProbeReply, answered, refused, set_health, unprobed, health_of, probe, add_urls,
  rpc_pool, any_healthy,
}

-- Whether a url stands in a list.
abbrev pub occurs : ℕ → List ℕ → Bool
occurs url urls = any (λ u. u == url) urls

-- The pool by the replies that are in: those of the urls in a list.
abbrev known : (ℕ → ProbeReply) → List ℕ → ℕ → RpcHealth
known reply done url = if occurs url done then health_of url (reply url) else unprobed url

health_of-url : (url : ℕ) (r : ProbeReply) → (health_of url r).url ≡ url
health_of-url url (answered at latency) = refl
health_of-url url (refused at message) = refl

known-url : (reply : ℕ → ProbeReply) (done : List ℕ) (url : ℕ) → (known reply done url).url ≡ url
known-url reply done url = elim (Bool-cases (occurs url done)) [
  | inl hit ↦ rw hit (health_of-url url (reply url))
  | inr miss ↦ rw miss refl
]

known_other :
    (reply : ℕ → ProbeReply) (done : List ℕ) (url u : ℕ)
    → url ≢ u
    → known reply (url ∷ done) u ≡ known reply done u
known_other reply done url u d =
    let miss : (url == u) ≡ false = ground (arith, d) in rw (any, miss) refl

known_others :
    (reply : ℕ → ProbeReply) (done : List ℕ) (url : ℕ) (urls : List ℕ)
    → All (λ u. url ≢ u) urls
    → map (known reply (url ∷ done)) urls ≡ map (known reply done) urls
known_others reply done url [] d = refl
known_others reply done url (u ∷ us) d =
    rw (known_other reply done url u d.0, known_others reply done url us d.1) refl

known_own :
    (reply : ℕ → ProbeReply) (done : List ℕ) (url : ℕ)
    → known reply (url ∷ done) url ≡ health_of url (reply url)
known_own reply done url = let hit : (url == url) ≡ true = ground arith in rw (any, hit) refl

-- An endpoint's health is set in its place.
set_known :
    (reply : ℕ → ProbeReply) (done urls : List ℕ) (url : ℕ)
    → IsDistinct urls
    → occurs url urls ≡ true
    → set_health (health_of url (reply url)) (map (known reply done) urls)
      ≡ map (known reply (url ∷ done)) urls
unfolding set_health upsert
set_known reply done [] url d o = ground (arith, o)
set_known reply done (u ∷ us) url d o = elim (Bool-cases (u == url)) [
  | inl hit ↦
      let same : u ≡ url = (==_iff u url).0 hit in
      let others : All (λ y. url ≢ y) us = rw same at d.0 in
      rw
        (
          known-url reply done u,
          health_of-url url (reply url),
          hit,
          same,
          known_own reply done url,
          known_others reply done url us others,
        )
        refl
  | inr miss ↦
      let apart : url ≢ u = (λ e. ground (arith, miss, e)) in
      let later : occurs url us ≡ true = rw (any, miss) at o in
      rw
        (
          known-url reply done u,
          health_of-url url (reply url),
          miss,
          known_other reply done url u apart,
          set_known reply done us url d.1 later,
        )
        refl
]

-- The urls whose replies are in after some more.
seen : (done order : List ℕ) → List ℕ
seen done [] = done
seen done (u ∷ us) = seen (u ∷ done) us

occurs-seen :
    (u : ℕ) (done order : List ℕ)
    → (occurs u done || occurs u order) ≡ true
    → occurs u (seen done order) ≡ true
unfolding seen
occurs-seen u done [] o = ground (arith, o)
occurs-seen u done (v ∷ vs) o = elim (Bool-cases (v == u)) [
  | inl hit ↦ occurs-seen u (v ∷ done) vs (rw (any, hit) refl)
  | inr miss ↦ occurs-seen u (v ∷ done) vs (rw (any, miss) (rw (any, miss) at o))
]

probe-known :
    (reply : ℕ → ProbeReply) (done urls order : List ℕ)
    → IsDistinct urls
    → All (λ u. occurs u urls ≡ true) order
    → probe (map (λ u. (u, reply u)) order) (map (known reply done) urls)
      ≡ map (known reply (seen done order)) urls
unfolding probe seen
probe-known reply done urls [] d o = refl
probe-known reply done urls (u ∷ us) d o =
    ap (probe (map (λ v. (v, reply v)) us)) (set_known reply done urls u d o.0)
    ∙ probe-known reply (u ∷ done) urls us d o.1

set_fresh :
    (u : ℕ) (done : List ℕ)
    → All (λ y. y ≢ u) done
    → set_health (unprobed u) (map unprobed done) ≡ map unprobed (done ++ (u ∷ []))
unfolding set_health upsert
set_fresh u [] d = refl
set_fresh u (x ∷ xs) d =
    let miss : (x == u) ≡ false = ground (arith, d.0) in
    rw miss (ap (λ hs. unprobed x ∷ hs) (set_fresh u xs d.1))

middle : (P : ℕ → Type 0) (xs : List ℕ) (u : ℕ) (us : List ℕ) → All P (xs ++ (u ∷ us)) → P u
middle P [] u us h = h.0
middle P (x ∷ xs) u us h = middle P xs u us h.1

apart_before :
    (done : List ℕ) (u : ℕ) (us : List ℕ) → IsDistinct (done ++ (u ∷ us)) → All (λ y. y ≢ u) done
apart_before [] u us d = tt
apart_before (x ∷ xs) u us d = (middle (λ y. x ≢ y) xs u us d.0, apart_before xs u us d.1)

-- The pool before any probe.
add_urls_fresh :
    (done urls : List ℕ)
    → IsDistinct (done ++ urls)
    → add_urls urls (map unprobed done) ≡ map unprobed (done ++ urls)
unfolding add_urls
add_urls_fresh done [] d = ap (map unprobed) (sym (append-nil done))
add_urls_fresh done (u ∷ us) d =
    let shift : done ++ (u ∷ us) ≡ (done ++ (u ∷ [])) ++ us = sym (append_assoc done (u ∷ []) us) in
    ap (add_urls us) (set_fresh u done (apart_before done u us d))
    ∙ add_urls_fresh (done ++ (u ∷ [])) us (rw shift at d)
    ∙ ap (map unprobed) (sym shift)

known_none :
    (reply : ℕ → ProbeReply) (urls : List ℕ) → map unprobed urls ≡ map (known reply []) urls
known_none reply [] = refl
known_none reply (u ∷ us) = ap (λ hs. unprobed u ∷ hs) (known_none reply us)

known_each :
    (reply : ℕ → ProbeReply) (done urls : List ℕ)
    → All (λ u. occurs u done ≡ true) urls
    → map (known reply done) urls ≡ map (λ u. health_of u (reply u)) urls
known_each reply done [] h = refl
known_each reply done (u ∷ us) h = rw (h.0, known_each reply done us h.1) refl

abbrev pub has_answered : ProbeReply → Bool
has_answered (answered at latency) = true
has_answered (refused at message) = false

health_of-ok : (u : ℕ) (r : ProbeReply) → (health_of u r).ok ≡ has_answered r
health_of-ok u (answered at latency) = refl
health_of-ok u (refused at message) = refl

any_ok :
    (reply : ℕ → ProbeReply) (urls : List ℕ)
    → any (λ h. h.ok) (map (λ u. health_of u (reply u)) urls)
      ≡ any (λ u. has_answered (reply u)) urls
any_ok reply [] = refl
any_ok reply (u ∷ us) = elim (Bool-cases (has_answered (reply u))) [
  | inl hit ↦ rw (any, health_of-ok u (reply u), hit) refl
  | inr miss ↦ rw (any, health_of-ok u (reply u), miss) (any_ok reply us)
]

-- If the configured endpoints differ, then however the probes' ends are ordered, once every endpoint
-- of the pool has replied, and no other, the snapshot has the endpoints in the order of the configuration, each with its own reply, and the pool is
-- healthy just if one of them answered.
pub probe-any_healthy :
    (reply : ℕ → ProbeReply) (urls order : List ℕ)
    → IsDistinct urls
    → All (λ u. occurs u urls ≡ true) order
    → All (λ u. occurs u order ≡ true) urls
    → let snapshot = probe (map (λ u. (u, reply u)) order) (rpc_pool urls) in
      (snapshot ≡ map (λ u. health_of u (reply u)) urls)
      × (any_healthy snapshot ≡ any (λ u. has_answered (reply u)) urls)
unfolding rpc_pool any_healthy
probe-any_healthy reply urls order d mine each =
    let whole =
      ap (probe (map (λ u. (u, reply u)) order)) (add_urls_fresh [] urls d ∙ known_none reply urls)
      ∙ probe-known reply [] urls order d mine
      ∙ known_each reply (seen [] order) urls (
          All-map (λ u. occurs u order ≡ true) (λ u. occurs u (seen [] order) ≡ true) urls
            (λ u o. occurs-seen u [] order o) each) in
    (whole, ap (any (λ h. h.ok)) whole ∙ any_ok reply urls)
