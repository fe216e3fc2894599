-- ===== src/Operator/Copies/Arrays.antt =====
-- The copies of the log sources.
use mathlib.Core.List.{append-nil}
use tailpost.Base.{List, [], ◌∷◌, ◌≡◌, refl, sym, ap, ◌∙◌, Option, none, some, String, map}
use tailpost.Operator.Copies.{
  Source, Cell, number, selector, sources, conditions, agents, Store, at, new_cell, copy_pointer,
  copy_source, copy_sources, copy_array,
}
use tailpost.Operator.Copies.Stores.{
  Grows, IsValid, at-Grows, valid-Grows, Copied, both, new_cell_lem, copy_pointer_lem,
}

-- What a source is in a store: its strings, and what its pointers lead to.
pub record SourceView (Selector : Type 0) : Type 0 where
  pub type : String
  pub path : String
  pub container_name : String
  pub pod_selector : Option (Cell Selector)
  pub namespace_selector : Option (Cell Selector)

module _ {Selector : Type 0} where
  abbrev view_source : Store Selector → Source → SourceView Selector
  view_source g s = record {
    type = s.type;
    path = s.path;
    container_name = s.container_name;
    pod_selector = at g s.pod_selector;
    namespace_selector = at g s.namespace_selector;
  }

  abbrev IsValidSource : Store Selector → Source → Type 0
  IsValidSource h s = IsValid h s.pod_selector × IsValid h s.namespace_selector

  copy_source_lem :
      (s : Source) (h : Store Selector)
      → IsValidSource h s
      → Copied h (copy_source s h).1 (λ g. view_source g (copy_source s h).0 ≡ view_source h s)
  unfolding copy_source
  copy_source_lem s h (v, w) =
      let pod = copy_pointer s.pod_selector h in
      let namespace = copy_pointer s.namespace_selector pod.1 in
      let one = copy_pointer_lem s.pod_selector h in
      let two = copy_pointer_lem s.namespace_selector pod.1 in
      let pair = both h pod.1 namespace.1 _ _ one two in
      record {
        grows = pair.grows;
        holds = λ g f.
            let (e, d) = pair.holds g f in
            let d' = d ∙ at-Grows h pod.1 s.namespace_selector one.grows w in
            ap
              (λ (x : Option (Cell Selector)). record (view_source g (copy_source s h).0) {
                pod_selector = x;
              })
              e
            ∙ ap
                (λ (x : Option (Cell Selector)). record (view_source h s) {
                  namespace_selector = x;
                })
                d';
      }

  abbrev view_sources : Store Selector → List Source → List (SourceView Selector)
  view_sources g ss = map (view_source g) ss

  abbrev AllValid : Store Selector → List Source → Type 0
  AllValid h [] = Unit
  AllValid h (s ∷ ss) = IsValidSource h s × AllValid h ss

  AllValid-Grows :
      (h k : Store Selector) (ss : List Source) → Grows h k → AllValid h ss → AllValid k ss
  AllValid-Grows h k [] w v = tt
  AllValid-Grows h k (s ∷ ss) w ((p, n), v) = (
    (valid-Grows h k s.pod_selector w p, valid-Grows h k s.namespace_selector w n),
    AllValid-Grows h k ss w v,
  )

  view_source-Grows :
      (h k : Store Selector) (s : Source)
      → Grows h k
      → IsValidSource h s
      → view_source k s ≡ view_source h s
  view_source-Grows h k s w (p, n) =
      ap (λ (x : Option (Cell Selector)). record (view_source k s) { pod_selector = x })
        (at-Grows h k s.pod_selector w p)
      ∙ ap (λ (x : Option (Cell Selector)). record (view_source h s) { namespace_selector = x })
          (at-Grows h k s.namespace_selector w n)

  view_sources-Grows :
      (h k : Store Selector) (ss : List Source)
      → Grows h k
      → AllValid h ss
      → view_sources k ss ≡ view_sources h ss
  view_sources-Grows h k [] w v = refl
  view_sources-Grows h k (s ∷ ss) w (v, vs) =
      ap (λ (x : SourceView Selector). x ∷ view_sources k ss) (view_source-Grows h k s w v)
      ∙ ap (λ (x : List (SourceView Selector)). view_source h s ∷ x)
          (view_sources-Grows h k ss w vs)

  copy_sources_lem :
      (ss : List Source) (h : Store Selector)
      → AllValid h ss
      → Copied h
          (copy_sources ss h).1
          (λ g. view_sources g (copy_sources ss h).0 ≡ view_sources h ss)
  unfolding copy_sources
  copy_sources_lem [] h v = record { grows = ([], sym (append-nil h)); holds = λ g f. refl }
  copy_sources_lem (s ∷ ss) h (v, vs) =
      let first = copy_source s h in
      let one = copy_source_lem s h v in
      let two = copy_sources_lem ss first.1 (AllValid-Grows h first.1 ss one.grows vs) in
      let pair = both h first.1 (copy_sources ss first.1).1 _ _ one two in
      record {
        grows = pair.grows;
        holds = λ g f.
            let (e, d) = pair.holds g f in
            ap (λ (x : SourceView Selector). x ∷ view_sources g (copy_sources ss first.1).0) e
            ∙ ap (λ (x : List (SourceView Selector)). view_source h s ∷ x)
                (d ∙ view_sources-Grows h first.1 ss one.grows vs);
      }

  abbrev pub view_array :
      Store Selector → Option (Cell Selector) → Option (List (SourceView Selector))
  view_array g none = none
  view_array g (some (number n)) = none
  view_array g (some (selector s)) = none
  view_array g (some (conditions cs)) = none
  view_array g (some (agents xs)) = none
  view_array g (some (sources ss)) = some (view_sources g ss)

  abbrev pub ValidArray : Store Selector → Option (Cell Selector) → Type 0
  ValidArray h none = Unit
  ValidArray h (some (number n)) = Unit
  ValidArray h (some (selector s)) = Unit
  ValidArray h (some (conditions cs)) = Unit
  ValidArray h (some (agents xs)) = Unit
  ValidArray h (some (sources ss)) = AllValid h ss

  pub ValidArray-Grows :
      (h k : Store Selector) (c : Option (Cell Selector))
      → Grows h k
      → ValidArray h c
      → ValidArray k c
  ValidArray-Grows h k none w v = tt
  ValidArray-Grows h k (some (number n)) w v = tt
  ValidArray-Grows h k (some (selector s)) w v = tt
  ValidArray-Grows h k (some (conditions cs)) w v = tt
  ValidArray-Grows h k (some (agents xs)) w v = tt
  ValidArray-Grows h k (some (sources ss)) w v = AllValid-Grows h k ss w v

  pub view_array-Grows :
      (h k : Store Selector) (c : Option (Cell Selector))
      → Grows h k
      → ValidArray h c
      → view_array k c ≡ view_array h c
  view_array-Grows h k none w v = refl
  view_array-Grows h k (some (number n)) w v = refl
  view_array-Grows h k (some (selector s)) w v = refl
  view_array-Grows h k (some (conditions cs)) w v = refl
  view_array-Grows h k (some (agents xs)) w v = refl
  view_array-Grows h k (some (sources ss)) w v = ap some (view_sources-Grows h k ss w v)

  pub nothing_new :
      (h : Store Selector) (P : Store Selector → Type 0)
      → ((g : Store Selector) → P g)
      → Copied h h P
  nothing_new h P x = record { grows = ([], sym (append-nil h)); holds = λ g f. x g }

  pub copy_array_lem :
      (c : Option (Cell Selector)) (h : Store Selector)
      → ValidArray h c
      → Copied h (copy_array c h).1 (λ g. view_array g (at g (copy_array c h).0) ≡ view_array h c)
  copy_array_lem none h v = nothing_new h _ (λ g. refl)
  copy_array_lem (some (number n)) h v = nothing_new h _ (λ g. refl)
  copy_array_lem (some (selector s)) h v = nothing_new h _ (λ g. refl)
  copy_array_lem (some (conditions cs)) h v = nothing_new h _ (λ g. refl)
  copy_array_lem (some (agents xs)) h v = nothing_new h _ (λ g. refl)
  copy_array_lem (some (sources ss)) h v =
      let all = copy_sources ss h in
      let one = copy_sources_lem ss h v in
      let two = new_cell_lem (some (sources all.0)) all.1 in
      let pair = both h all.1 (new_cell (some (sources all.0)) all.1).1 _ _ one two in
      record {
        grows = pair.grows;
        holds = λ g f.
            let (e, d) = pair.holds g f in
            ap (λ (x : Option (Cell Selector)). view_array g x) d ∙ ap some e;
      }
