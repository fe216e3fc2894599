-- ===== src/Operator/Copies/Apart.antt =====
-- What a deep copy shares with its original.

use tailpost.Base.{ℕ, ◌<◌, List, ◌≡◌, refl, sym, ap, ◌∙◌, arith, Option, none, length, subst}
use tailpost.Operator.Copies.{
  Cell, Spec, Status, Agent, put, Store, at, copy_pointer, copy_array, copy_spec, copy_status,
  deep_copy,
}
use tailpost.Operator.Copies.Stores.{
  Grows, IsValid, at-Grows, get-put, Copied, both, copy_pointer_lem,
}
use tailpost.Operator.Copies.Arrays.{
  SourceView, view_array, ValidArray, ValidArray-Grows, view_array-Grows, copy_array_lem,
}

-- What an agent is in a store: its fields without the pointers, and what these lead to.
pub record AgentView (Selector : Type 0) : Type 0 where
  pub spec : Spec
  pub status : Status
  pub replicas : Option (Cell Selector)
  pub batch_size : Option (Cell Selector)
  pub log_sources : Option (List (SourceView Selector))
  pub conditions : Option (Cell Selector)

module _ {Selector : Type 0} where
  abbrev pub view : Store Selector → Agent → AgentView Selector
  view g a = record {
    spec = record a.spec { replicas = none; batch_size = none; log_sources = none };
    status = record a.status { conditions = none };
    replicas = at g a.spec.replicas;
    batch_size = at g a.spec.batch_size;
    log_sources = view_array g (at g a.spec.log_sources);
    conditions = at g a.status.conditions;
  }

  -- Every pointer of the agent is nil or has a cell.
  pub record IsStored (h : Store Selector) (a : Agent) : Type 0 where
    pub replicas : IsValid h a.spec.replicas
    pub batch_size : IsValid h a.spec.batch_size
    pub log_sources : IsValid h a.spec.log_sources
    pub array : ValidArray h (at h a.spec.log_sources)
    pub conditions : IsValid h a.status.conditions

  abbrev with_parts :
      Agent
      → Option (Cell Selector)
      → Option (Cell Selector)
      → Option (List (SourceView Selector))
      → Option (Cell Selector)
      → AgentView Selector
  with_parts a r b l c = record {
    spec = record a.spec { replicas = none; batch_size = none; log_sources = none };
    status = record a.status { conditions = none };
    replicas = r;
    batch_size = b;
    log_sources = l;
    conditions = c;
  }

  pub same_parts :
      (a : Agent) (r r' b b' : Option (Cell Selector)) (l l' : Option (List (SourceView Selector)))
      (c c' : Option (Cell Selector))
      → r ≡ r'
      → b ≡ b'
      → l ≡ l'
      → c ≡ c'
      → with_parts a r b l c ≡ with_parts a r' b' l' c'
  same_parts a r r' b b' l l' c c' p q s t =
      ap (λ (x : Option (Cell Selector)). with_parts a x b l c) p
      ∙ ap (λ (x : Option (Cell Selector)). with_parts a r' x l c) q
      ∙ ap (λ (x : Option (List (SourceView Selector))). with_parts a r' b' x c) s
      ∙ ap (λ (x : Option (Cell Selector)). with_parts a r' b' l' x) t

  copy_log_sources_lem :
      (a : Agent) (h k : Store Selector)
      → IsStored h a
      → Grows h k
      → Copied k (copy_array (at k a.spec.log_sources) k).1 (λ g.
        view_array g (at g (copy_array (at k a.spec.log_sources) k).0)
        ≡ view_array h (at h a.spec.log_sources))
  copy_log_sources_lem a h k v w =
      let same = at-Grows h k a.spec.log_sources w v.log_sources in
      let all = copy_array_lem (at k a.spec.log_sources) k (
        subst (λ (c : Option (Cell Selector)). ValidArray k c) (sym same)
          (ValidArray-Grows h k _ w v.array)) in
      record {
        grows = all.grows;
        holds = λ g f.
            all.holds g f
            ∙ ap (λ (c : Option (Cell Selector)). view_array k c) same
            ∙ view_array-Grows h k _ w v.array;
      }

  pub deep_copy_lem :
      (a : Agent) (h : Store Selector)
      → IsStored h a
      → Copied h (deep_copy a h).1 (λ g. view g (deep_copy a h).0 ≡ view h a)
  unfolding deep_copy copy_spec copy_status
  deep_copy_lem a h v =
      let r = copy_pointer a.spec.replicas h in
      let b = copy_pointer a.spec.batch_size r.1 in
      let l = copy_array (at b.1 a.spec.log_sources) b.1 in
      let c = copy_pointer a.status.conditions l.1 in
      let one = copy_pointer_lem a.spec.replicas h in
      let two = both h r.1 b.1 _ _ one (copy_pointer_lem a.spec.batch_size r.1) in
      let three = both h b.1 l.1 _ _ two (copy_log_sources_lem a h b.1 v two.grows) in
      let four = both h l.1 c.1 _ _ three (copy_pointer_lem a.status.conditions l.1) in
      record {
        grows = four.grows;
        holds = λ g f.
            let (((p, q), s), t) = four.holds g f in
            let q' = q ∙ at-Grows h r.1 a.spec.batch_size one.grows v.batch_size in
            let t' = t ∙ at-Grows h l.1 a.status.conditions three.grows v.conditions in
            same_parts a _ _ _ _ _ _ _ _ p q' s t';
      }

  -- When every pointer of an agent has a cell, its deep copy is at first what the agent was, and stays
  -- so when any cell that was there before the copy is written: the copy shares no cell with the
  -- original, down to the selectors of its log sources.
  pub deep_copy_apart :
      (a : Agent) (h : Store Selector)
      → IsStored h a
      → (view (deep_copy a h).1 (deep_copy a h).0 ≡ view h a)
        × ((n : ℕ) (x : Cell Selector)
            → n < length h
            → view (put n x (deep_copy a h).1) (deep_copy a h).0 ≡ view h a)
  deep_copy_apart a h v =
      let all = deep_copy_lem a h v in
      (
        all.holds (deep_copy a h).1 (λ i l u. refl),
        λ n x b.
            all.holds (put n x (deep_copy a h).1)
              (λ i l u. get-put n x (deep_copy a h).1 i (omega (arith, b, l))),
      )
