-- ===== src/Engine/Queues.antt =====
-- pkg/engine/engine.go: desiredQueues.
pub mod Sorted
use chitchat.Base.{
  ℕ, Str, is_empty, elem, ltb, ◌==◌, if◌then◌else◌, Bool, true, false, ◌||◌, ◌&&◌, List, [], ◌∷◌,
  ◌++◌, map,
}
use chitchat.Config.Types.{Config, Rule, Trigger, SpyConfig}

-- s <= t, as Go compares strings
unfoldable pub str_leb : Str → Str → Bool
str_leb [] t = true
str_leb (c ∷ s) [] = false
str_leb (c ∷ s) (d ∷ t) = ltb c d || (c == d && str_leb s t)

-- `if q != "" { set[q] = struct{}{} }`, for each q of a list.
unfoldable pub add_queues : List Str → List Str → List Str
add_queues set [] = set
add_queues set (q ∷ qs) =
    add_queues (if is_empty q then set else if elem q set then set else q ∷ set) qs

insert_sorted : Str → List Str → List Str
insert_sorted q [] = q ∷ []
insert_sorted q (x ∷ xs) =
    let rest = insert_sorted q xs in if str_leb q x then q ∷ x ∷ xs else x ∷ rest

-- sort.Strings
unfoldable pub sort : List Str → List Str
unfolding insert_sorted
sort [] = []
sort (q ∷ qs) = insert_sorted q (sort qs)

unfoldable pub desired_queues : Config → List Str
unfolding add_queues sort
desired_queues cfg =
    sort (add_queues (add_queues [] (map (λ r. r.trigger.queue) cfg.rules)) cfg.spy.queues)
