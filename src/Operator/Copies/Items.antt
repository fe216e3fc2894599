-- ===== src/Operator/Copies/Items.antt =====
-- The deep copy of a list of agents.
use mathlib.Core.List.{append-nil}
use tailpost.Base.{
  ℕ, ◌<◌, List, [], ◌∷◌, ◌≡◌, refl, sym, ap, ◌∙◌, subst, arith, Option, none, some, length, map,
}
use tailpost.Operator.Copies.{
  Cell, number, selector, sources, conditions, agents, Agent, AgentList, put, Store, at, new_cell,
  deep_copy, copy_agents, copy_items, deep_copy_list,
}
use tailpost.Operator.Copies.Stores.{
  Grows, at-Grows, valid-Grows, get-put, Copied, both, new_cell_lem,
}
use tailpost.Operator.Copies.Arrays.{
  view_array, ValidArray, ValidArray-Grows, view_array-Grows, nothing_new,
}
use tailpost.Operator.Copies.Apart.{AgentView, view, IsStored, same_parts, deep_copy_lem}

module _ {Selector : Type 0} where
  IsStored-Grows : (h k : Store Selector) (a : Agent) → Grows h k → IsStored h a → IsStored k a
  IsStored-Grows h k a w v = record {
    replicas = valid-Grows h k a.spec.replicas w v.replicas;
    batch_size = valid-Grows h k a.spec.batch_size w v.batch_size;
    log_sources = valid-Grows h k a.spec.log_sources w v.log_sources;
    array =
        subst (λ (c : Option (Cell Selector)). ValidArray k c)
          (sym (at-Grows h k a.spec.log_sources w v.log_sources))
          (ValidArray-Grows h k _ w v.array);
    conditions = valid-Grows h k a.status.conditions w v.conditions;
  }

  view-Grows : (h k : Store Selector) (a : Agent) → Grows h k → IsStored h a → view k a ≡ view h a
  view-Grows h k a w v =
      same_parts a _ _ _ _ _ _ _ _ (at-Grows h k a.spec.replicas w v.replicas)
        (at-Grows h k a.spec.batch_size w v.batch_size)
        (ap (λ (c : Option (Cell Selector)). view_array k c)
            (at-Grows h k a.spec.log_sources w v.log_sources)
          ∙ view_array-Grows h k _ w v.array)
        (at-Grows h k a.status.conditions w v.conditions)

  abbrev views : Store Selector → List Agent → List (AgentView Selector)
  views g xs = map (view g) xs

  abbrev AllStored : Store Selector → List Agent → Type 0
  AllStored h [] = Unit
  AllStored h (a ∷ xs) = IsStored h a × AllStored h xs

  AllStored-Grows :
      (h k : Store Selector) (xs : List Agent) → Grows h k → AllStored h xs → AllStored k xs
  AllStored-Grows h k [] w v = tt
  AllStored-Grows h k (a ∷ xs) w (v, vs) = (IsStored-Grows h k a w v, AllStored-Grows h k xs w vs)

  views-Grows :
      (h k : Store Selector) (xs : List Agent)
      → Grows h k
      → AllStored h xs
      → views k xs ≡ views h xs
  views-Grows h k [] w v = refl
  views-Grows h k (a ∷ xs) w (v, vs) =
      ap (λ (x : AgentView Selector). x ∷ views k xs) (view-Grows h k a w v)
      ∙ ap (λ (x : List (AgentView Selector)). view h a ∷ x) (views-Grows h k xs w vs)

  copy_agents_lem :
      (xs : List Agent) (h : Store Selector)
      → AllStored h xs
      → Copied h (copy_agents xs h).1 (λ g. views g (copy_agents xs h).0 ≡ views h xs)
  unfolding copy_agents
  copy_agents_lem [] h v = record { grows = ([], sym (append-nil h)); holds = λ g f. refl }
  copy_agents_lem (a ∷ xs) h (v, vs) =
      let first = deep_copy a h in
      let one = deep_copy_lem a h v in
      let two = copy_agents_lem xs first.1 (AllStored-Grows h first.1 xs one.grows vs) in
      let pair = both h first.1 (copy_agents xs first.1).1 _ _ one two in
      record {
        grows = pair.grows;
        holds = λ g f.
            let (e, d) = pair.holds g f in
            ap (λ (x : AgentView Selector). x ∷ views g (copy_agents xs first.1).0) e
            ∙ ap (λ (x : List (AgentView Selector)). view h a ∷ x)
                (d ∙ views-Grows h first.1 xs one.grows vs);
      }

  abbrev pub view_items :
      Store Selector → Option (Cell Selector) → Option (List (AgentView Selector))
  view_items g none = none
  view_items g (some (number n)) = none
  view_items g (some (selector s)) = none
  view_items g (some (conditions cs)) = none
  view_items g (some (sources ss)) = none
  view_items g (some (agents xs)) = some (views g xs)

  -- The slice is nil or holds agents whose pointers have cells.
  abbrev pub AreStored : Store Selector → Option (Cell Selector) → Type 0
  AreStored h none = Unit
  AreStored h (some (number n)) = Unit
  AreStored h (some (selector s)) = Unit
  AreStored h (some (conditions cs)) = Unit
  AreStored h (some (sources ss)) = Unit
  AreStored h (some (agents xs)) = AllStored h xs

  copy_items_lem :
      (c : Option (Cell Selector)) (h : Store Selector)
      → AreStored h c
      → Copied h (copy_items c h).1 (λ g. view_items g (at g (copy_items c h).0) ≡ view_items h c)
  copy_items_lem none h v = nothing_new h _ (λ g. refl)
  copy_items_lem (some (number n)) h v = nothing_new h _ (λ g. refl)
  copy_items_lem (some (selector s)) h v = nothing_new h _ (λ g. refl)
  copy_items_lem (some (conditions cs)) h v = nothing_new h _ (λ g. refl)
  copy_items_lem (some (sources ss)) h v = nothing_new h _ (λ g. refl)
  copy_items_lem (some (agents xs)) h v =
      let all = copy_agents xs h in
      let one = copy_agents_lem xs h v in
      let two = new_cell_lem (some (agents all.0)) all.1 in
      let pair = both h all.1 (new_cell (some (agents all.0)) all.1).1 _ _ one two in
      record {
        grows = pair.grows;
        holds = λ g f.
            let (e, d) = pair.holds g f in
            ap (λ (x : Option (Cell Selector)). view_items g x) d ∙ ap some e;
      }

  -- The deep copy of a list of agents is at first what the list was, and stays so when any cell that was
  -- there before the copy is written: no agent of the copy shares a cell with the original. The array
  -- of the list, if it has one, holds agents whose pointers are nil or have cells.
  pub deep_copy_list_apart :
      (l : AgentList) (h : Store Selector)
      → AreStored h (at h l.items)
      → let c = deep_copy_list l h in
        (view_items c.1 (at c.1 c.0.items) ≡ view_items h (at h l.items))
        × ((n : ℕ) (x : Cell Selector)
            → n < length h
            → view_items (put n x c.1) (at (put n x c.1) c.0.items) ≡ view_items h (at h l.items))
  unfolding deep_copy_list
  deep_copy_list_apart l h v =
      let all = copy_items_lem (at h l.items) h v in
      (
        all.holds (copy_items (at h l.items) h).1 (λ i p u. refl),
        λ n x b.
            all.holds (put n x (copy_items (at h l.items) h).1)
              (λ i p u. get-put n x (copy_items (at h l.items) h).1 i (omega (arith, b, p))),
      )
