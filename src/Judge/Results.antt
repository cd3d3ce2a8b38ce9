-- ===== src/Judge/Results.antt =====
-- src/libs/judge/JudgeResult.ts and JudgeResults.ts: what is known of a proxy after its tests.
pub mod Order
use node_proxybroker.Prelude.{
  ℕ, ◌≡◌, Bool, true, false, not, ◌&&◌, ◌||◌, Option, none, some, List, [], ◌∷◌, Str, find,
  if◌then◌else◌, ltb, ◌==◌, ℤ, pos, negsuc,
}
use node_proxybroker.Entities.{ProtocolType, flag, same_protocol}
use node_proxybroker.Http.{Error}
use node_proxybroker.Judge.Monitor.{ReqResEvent}

-- A duration that is Infinity is `none`.
pub record JudgeResult : Type 0 where
  pub error : Option Error
  pub has_error : Bool
  pub protocol_from : ProtocolType
  pub protocol_to : ProtocolType
  pub start : ℕ
  pub stop : Option ℕ
  pub duration : Option ℕ
  pub level : ℤ
  pub log : List ReqResEvent

unfoldable pub set_error : Option Error → JudgeResult → JudgeResult
set_error none r = r
set_error (some e) r = record r { error = some e; has_error = true }

-- The comparison of `getVariants`: whether `a` comes strictly before `b`.
unfoldable pub before : JudgeResult → JudgeResult → Bool
before a b =
    if ltb (flag a.protocol_from) (flag b.protocol_from)
    then true
    else if ltb (flag b.protocol_from) (flag a.protocol_from)
    then false
    else ltb (flag a.protocol_to) (flag b.protocol_to)

-- The stable sort of `Array.prototype.sort`.
unfoldable pub insert : JudgeResult → List JudgeResult → List JudgeResult
insert x [] = x ∷ []
insert x (y ∷ ys) = let rest = insert x ys in if before y x then y ∷ rest else x ∷ y ∷ ys

unfoldable pub get_variants : List JudgeResult → List JudgeResult
unfolding insert before
get_variants [] = []
get_variants (x ∷ xs) = insert x (get_variants xs)

unfoldable pub get_variant : ProtocolType → ProtocolType → List JudgeResult → Option JudgeResult
get_variant src dest =
    find (λ v. same_protocol v.protocol_from src && same_protocol v.protocol_to dest)
