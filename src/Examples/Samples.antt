-- ===== src/Examples/Samples.antt =====
-- A sample in the table, and a tick that adds another.
use ponshot.Base.{true, some, none, [], ◌∷◌, List}
use ponshot.Base.Int.{pos}
use ponshot.Indexer.Engine.{Engine, Chain}
use ponshot.Indexer.Engine.Samples.{Quotes, sampled_follow}
use ponshot.Indexer.Engine.Samples.Series.{Extends, Sampled, sampled_follow-Extends}
use ponshot.Examples.Engine.{config, started, quiet}

abbrev quotes : Quotes
quotes = record { spot = some (5, pos 2); twap = none; timestamp = some 700; writes = true }

abbrev sampler : Engine
sampler = record started { samples = record { ts = 600; spot = 4; twap = none; tick = pos 1 } ∷ [] }

-- A head that the cursor is past: the tick discards the read model.
abbrev rewound : Chain
rewound = record quiet { head = some 0 }

abbrev ticks : List (Chain × Quotes)
ticks = (quiet, quotes) ∷ (rewound, quotes) ∷ (quiet, record quotes { timestamp = some 800 }) ∷ []

sampled_follow-Extends_example :
    Extends
      (Sampled config ticks sampler)
      sampler.samples
      (sampled_follow config ticks sampler).samples
sampled_follow-Extends_example = sampled_follow-Extends config ticks sampler (tt, tt)
