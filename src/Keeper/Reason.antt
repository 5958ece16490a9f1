-- ===== src/Keeper/Reason.antt =====
-- `describeRevert` of apps/keeper/src/tx.ts, and the two tests by which `send` reads its result.
use ponshot.Base.{ℕ, zero, suc, Bool, ◌||◌, Option, none, some, List, [], ◌∷◌, ◌++◌, any}
use ponshot.Base.Text.{Text, codes, includes, to_lower, trim, join}

-- A caught value, by what the function reads of it: falsy, or an error object with the fields that
-- viem's errors may have, its cause, and what `String(err)` shows.
pub data Caught : Type 0 where
  falsy : Caught
  error :
      (short_message details message : Option Text)
      → (meta_messages : Option (List Text)) → (cause : Caught) → (shown : Text) → Caught

-- `filter(Boolean)`: neither an absent nor an empty text.
abbrev present : List (Option Text) → List Text
present [] = []
present (none ∷ ts) = present ts
present (some [] ∷ ts) = present ts
present (some (c ∷ t) ∷ ts) = (c ∷ t) ∷ present ts

abbrev joined : Option (List Text) → Option Text
joined none = none
joined (some ts) = some (join (codes " ") ts)

-- `c.shortMessage ?? c.message ?? ""`
abbrev first_of_both : Option Text → Option Text → Text
first_of_both (some t) m = t
first_of_both none (some t) = t
first_of_both none none = []

-- The loop over the causes, at most five deep.
causes : ℕ → Caught → Text
causes zero c = []
causes (suc left) falsy = []
causes (suc left) (error short details message meta cause shown) =
    codes " <- " ++ (first_of_both short message ++ causes left cause)

abbrev or_text : Text → Text → Text
or_text [] d = d
or_text (c ∷ t) d = c ∷ t

unfoldable pub describe_revert : Caught → Text
unfolding causes trim join
describe_revert falsy = codes "unknown"
describe_revert (error short details message meta cause shown) =
    let parts = present (short ∷ details ∷ message ∷ joined meta ∷ []) in
    or_text (trim (join (codes " | ") parts ++ causes 5 cause)) shown

abbrev benign : List Text
benign =
    codes "RoundNotOpen"
    ∷ codes "NotYetSettleable"
    ∷ codes "NotYetLockable"
    ∷ codes "AlreadyStarted"
    ∷ codes "RoundNotCancellable"
    ∷ codes "PriceUnavailable"
    ∷ []

-- `BENIGN.some((b) => reason.includes(b))`
unfoldable pub is_benign : Text → Bool
unfolding includes
is_benign reason = any (includes reason) benign

-- `/nonce|already known|replacement transaction underpriced/i.test(reason)`
unfoldable pub is_conflict : Text → Bool
unfolding includes to_lower
is_conflict reason =
    let t = to_lower reason in
    includes t (codes "nonce")
    || includes t (codes "already known")
    || includes t (codes "replacement transaction underpriced")
