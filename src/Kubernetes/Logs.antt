-- ===== src/Kubernetes/Logs.antt =====
-- What `GetPodLogs` and `GetPodContainers` return.
use mathlib.Core.List.{append_assoc, append-nil}
use tailpost.Base.{
  suc, true, false, ◌||◌, List, [], ◌∷◌, ◌++◌, Option, none, some, String, Bytes, eqs, eq_iff, ◌≡◌,
  ◌≢◌, refl, sym, ap, ◌∙◌, arith, length, flatten, ok, err, ◌↔◌, Bool-cases, inl, inr,
  if◌then◌else◌, fail_if-eq-ok, length-append,
}
use tailpost.Base.Int.{ℤ, is_nonpos}
use tailpost.Kubernetes.{
  reading_logs, Cluster, PodLogOptions, Stream, Pod, copy, read_logs, get_pod_logs, make, assign,
  fill, get_pod_containers,
}

copy_lem : (cs : List Bytes) (b : Bytes) → copy cs b ≡ b ++ flatten cs
unfolding copy flatten
copy_lem [] b = sym (append-nil b)
copy_lem (c ∷ cs) b = copy_lem cs (b ++ c) ∙ append_assoc b c (flatten cs)

abbrev requested : String → ℤ → PodLogOptions
requested container n = record {
  container = container;
  tail_lines = if is_nonpos n then none else some n;
}

read_logs-ok :
    (o : Option Stream) (text : Bytes)
    → read_logs o ≡ ok text
    → (s : Stream) × (o ≡ some s) × (s.complete ≡ true) × (text ≡ flatten s.chunks)
unfolding read_logs
read_logs-ok none text h = cc
read_logs-ok (some s) text h = elim (Bool-cases s.complete) [
  | inl e ↦ (s, refl, e, same (copy s.chunks []) (rw e refl) ∙ copy_lem s.chunks [])
  | inr e ↦ let failed : read_logs (some s) ≡ err reading_logs = rw e refl in cc
]
  where
    same : (x : Bytes) → read_logs (some s) ≡ ok x → text ≡ x
    same x k = cc

read_logs_complete : (s : Stream) → s.complete ≡ true → read_logs (some s) ≡ ok (flatten s.chunks)
unfolding read_logs
read_logs_complete s e = rw e (ap (λ (b : Bytes). ok b) (copy_lem s.chunks []))

-- `GetPodLogs` is all or nothing: it returns a text exactly if the namespace and the pod are named, the
-- stream that it asks for opens and is read to its end, and then the text is the whole of the stream,
-- in its order. A stream that breaks off gives an error and no text.
pub get_pod_logs-ok_iff :
    (cluster : Cluster) (namespace pod_name container : String) (n : ℤ) (text : Bytes)
    → (get_pod_logs cluster namespace pod_name container n ≡ ok text) ↔ (
        (namespace ≢ "")
        × (pod_name ≢ "")
        × ((s : Stream) × (cluster.stream namespace pod_name (requested container n) ≡ some s)
            × (s.complete ≡ true)
            × (text ≡ flatten s.chunks)))
unfolding get_pod_logs
get_pod_logs-ok_iff cluster namespace pod_name container n text = (
  λ h.
      let (named, read) = fail_if-eq-ok (eqs namespace "" || eqs pod_name "") _ _ text h in
      (
        ground (arith, eq_iff namespace ""),
        ground (arith, eq_iff pod_name ""),
        read_logs-ok (cluster.stream namespace pod_name (requested container n)) text read,
      ),
  λ (has_namespace, has_name, (s, opened, complete, whole)).
      let named : (eqs namespace "" || eqs pod_name "") ≡ false =
        ground (arith, eq_iff namespace "", eq_iff pod_name "") in
      rw (named) (rw opened (read_logs_complete s complete ∙ ap (λ (b : Bytes). ok b) (sym whole))),
)

assign_lem :
    (before : List String) (c d : String) (after : List String)
    → assign (length before) c (before ++ (d ∷ after)) ≡ before ++ (c ∷ after)
unfolding assign
assign_lem [] c d after = refl
assign_lem (b ∷ before) c d after = ap (λ (xs : List String). b ∷ xs) (assign_lem before c d after)

fill_lem :
    (cs before : List String) → fill (length before) cs (before ++ make (length cs)) ≡ before ++ cs
unfolding fill make assign
fill_lem [] before = refl
fill_lem (c ∷ cs) before =
    let here =
      assign_lem before c "" (make (length cs))
      ∙ sym (append_assoc before (c ∷ []) (make (length cs))) in
    let counted : suc (length before) ≡ length (before ++ (c ∷ [])) =
      omega (arith, length-append before (c ∷ [])) in
    rw (here) (rw counted (fill_lem cs (before ++ (c ∷ [])) ∙ append_assoc before (c ∷ []) cs))

-- The loop of `GetPodContainers` gives the names of the containers, in their order.
get_pod_containers_lem : (pod : Pod) → get_pod_containers (some pod) ≡ pod.containers
unfolding get_pod_containers
get_pod_containers_lem pod = fill_lem pod.containers []
