-- ===== src/Examples/Rpc.antt =====
-- Two endpoints, of which the second replies first and the first does not answer.
use ponshot.Base.{ℕ, ◌≡◌, refl, true, [], ◌∷◌, ◌==◌, if◌then◌else◌, arith}
use ponshot.Base.Text.{codes}
use ponshot.Keeper.Rpc.{ProbeReply, answered, refused, rpc_pool, probe, any_healthy, health_of}
use ponshot.Keeper.Rpc.Probed.{probe-any_healthy}

abbrev replies : ℕ → ProbeReply
replies url = if url == 7 then refused 50 (codes "down") else answered 40 12

probe-any_healthy_example :
    let snapshot =
      probe ((9, answered 40 12) ∷ (7, refused 50 (codes "down")) ∷ []) (rpc_pool (7 ∷ 9 ∷ [])) in
    (snapshot ≡ health_of 7 (refused 50 (codes "down")) ∷ health_of 9 (answered 40 12) ∷ [])
    × (any_healthy snapshot ≡ true)
probe-any_healthy_example =
    probe-any_healthy replies (7 ∷ 9 ∷ []) (9 ∷ 7 ∷ []) ((omega arith, tt), (tt, tt))
      (refl, (refl, tt)) (refl, (refl, tt))
