-- ===== src/Datarights/Deletion/Erasure.antt =====
-- What is erased when a deletion job ends (services/datarights/internal/deletion/engine.go).
use gofin.Datarights.Deletion.{
  Providers, JobError, attempt_from, execute_provider, execute, backoff,
}
use gofin.Prelude.{
  All, ℕ, zero, suc, ◌+◌, ◌≤◌, String, ◌≡◌, refl, ◌⊎◌, inl, inr, Option, none, some, List, [], ◌∷◌,
  arith,
}
use gofin.Api.{Error}

abbrev pub Stopped :
    {K S : Type 0} → Providers K S → (K → S → Type 0) → List K → JobError → S → Type 0
Stopped ps Erased [] f s = ⊥
Stopped ps Erased (k ∷ ks) f s =
    ((f.provider ≡ ps.name k) × (1 ≤ f.attempts) × (f.attempts ≤ 3))
    ⊎ (Erased k s × Stopped ps Erased ks f s)

abbrev pub Executed :
    {K S : Type 0} → Providers K S → (K → S → Type 0) → List K → S × Option JobError → Type 0
Executed ps Erased ks (s, none) = All (λ k. Erased k s) ks
Executed ps Erased ks (s, some f) = Stopped ps Erased ks f s

module _ {K S : Type 0} (ps : Providers K S) (u : String) (Erased : K → S → Type 0)
    (erases : (k : K) (s : S) → (ps.delete k u s).1 ≡ none → Erased k (ps.delete k u s).0)
    (keeps : (k j : K) (s : S) → Erased k s → Erased k (ps.delete j u s).0)
    (waits : (k : K) (n : ℕ) (s : S) → Erased k s → Erased k (ps.wait n s).0) where
  attempt_from-keeps :
      (k j : K) (n left : ℕ) (s : S) → Erased k s → Erased k (attempt_from ps j u n left s).0
  unfolding attempt_from
  attempt_from-keeps k j n zero s h = last (ps.delete j u s).1
    where
      IsErased : S × (ℕ × Option Error) → Type 0
      IsErased q = Erased k q.0

      last :
          (r : Option Error)
          → IsErased (elim r [
            | none ↦ ((ps.delete j u s).0, (n, none))
            | some e ↦ ((ps.delete j u s).0, (3, some e))
          ])
      last none = keeps k j s h
      last (some e) = keeps k j s h
  attempt_from-keeps k j n (suc left) s h =
      let after = keeps k j s h in
      let waited = waits k (backoff n) (ps.delete j u s).0 after in
      let rest =
        attempt_from-keeps k j (n + 1) left (ps.wait (backoff n) (ps.delete j u s).0).0 waited in
      tried (ps.delete j u s).1 (ps.wait (backoff n) (ps.delete j u s).0).1 after waited rest
    where
      IsErased : S × (ℕ × Option Error) → Type 0
      IsErased q = Erased k q.0

      s1 : S
      s1 = (ps.delete j u s).0

      s2 : S
      s2 = (ps.wait (backoff n) s1).0

      tried :
          (r c : Option Error)
          → Erased k s1
          → Erased k s2
          → Erased k (attempt_from ps j u (n + 1) left s2).0
          → IsErased (elim r [
            | none ↦ (s1, (n, none))
            | some e ↦ elim c [
              | some x ↦ (s2, (n, some x))
              | none ↦ attempt_from ps j u (n + 1) left s2
            ]
          ])
      tried none c a w q = a
      tried (some e) (some x) a w q = w
      tried (some e) none a w q = q

  -- Of one provider: without an error it has erased; the attempts are one to three either way.
  abbrev Tried : K → S × (ℕ × Option Error) → Type 0
  Tried k (s, (n, none)) = Erased k s × (1 ≤ n) × (n ≤ 3)
  Tried k (s, (n, some e)) = (1 ≤ n) × (n ≤ 3)

  attempt_from-Tried :
      (k : K) (n left : ℕ) (s : S) → 1 ≤ n → n + left ≤ 3 → Tried k (attempt_from ps k u n left s)
  unfolding attempt_from
  attempt_from-Tried k n zero s h l = last (ps.delete k u s).1 refl
    where
      last :
          (r : Option Error)
          → (ps.delete k u s).1 ≡ r
          → Tried k (elim r [
            | none ↦ ((ps.delete k u s).0, (n, none))
            | some e ↦ ((ps.delete k u s).0, (3, some e))
          ])
      last none e = (erases k s e, h, omega arith)
      last (some x) e = (omega arith, omega arith)
  attempt_from-Tried k n (suc left) s h l =
      tried
        (attempt_from-Tried k (n + 1) left (ps.wait (backoff n) (ps.delete k u s).0).0 (omega arith)
          (omega arith))
        (ps.delete k u s).1 refl
    where
      s1 : S
      s1 = (ps.delete k u s).0

      s2 : S
      s2 = (ps.wait (backoff n) s1).0

      waited : Option Error → S × (ℕ × Option Error)
      waited c = elim c [ some x ↦ (s2, (n, some x)) | none ↦ attempt_from ps k u (n + 1) left s2 ]

      retried :
          Tried k (attempt_from ps k u (n + 1) left s2) → (c : Option Error) → Tried k (waited c)
      retried q (some x) = (h, omega arith)
      retried q none = q

      tried :
          Tried k (attempt_from ps k u (n + 1) left s2)
          → (r : Option Error) → (ps.delete k u s).1 ≡ r
          → Tried k (elim r [ none ↦ (s1, (n, none)) | some e ↦ waited (ps.wait (backoff n) s1).1 ])
      tried q none e = (erases k s e, h, omega arith)
      tried q (some x) e = retried q (ps.wait (backoff n) s1).1

  execute-keeps : (k : K) (ks : List K) (s : S) → Erased k s → Erased k (execute ps ks u s).0
  unfolding execute execute_provider
  execute-keeps k [] s h = h
  execute-keeps k (j ∷ ks) s h =
      let after = attempt_from-keeps k j 1 2 s h in
      let rest = execute-keeps k ks (execute_provider ps j u s).0 after in
      first (execute_provider ps j u s) after rest
    where
      IsErased : S × Option JobError → Type 0
      IsErased q = Erased k q.0

      first :
          (q : S × (ℕ × Option Error))
          → Erased k q.0
          → Erased k (execute ps ks u q.0).0
          → IsErased (elim q.1.1 [
            | some e ↦ (q.0, some (record { provider = ps.name j; attempts = q.1.0; cause = e }))
            | none ↦ execute ps ks u q.0
          ])
      first (s1, (n, some e)) a w = a
      first (s1, (n, none)) a w = w

  -- A job that ends without an error leaves the data of every registered provider erased. One that
  -- ends with an error names a registered provider and its one to three attempts, and the data of
  -- every provider before it is erased. What is assumed of the providers is their contract, that no
  -- error means erased, and that neither another provider nor waiting brings the data back.
  pub execute-Executed : (ks : List K) (s : S) → Executed ps Erased ks (execute ps ks u s)
  unfolding execute execute_provider
  execute-Executed [] s = tt
  execute-Executed (k ∷ ks) s =
      first (execute_provider ps k u s) (attempt_from-Tried k 1 2 s (omega arith) (omega arith))
        (execute-Executed ks (execute_provider ps k u s).0)
    where
      next : S × (ℕ × Option Error) → S × Option JobError
      next (s1, r) = elim r.1 [
        | some e ↦ (s1, some (record { provider = ps.name k; attempts = r.0; cause = e }))
        | none ↦ execute ps ks u s1
      ]

      joined :
          (q : S × Option JobError)
          → Erased k q.0
          → Executed ps Erased ks q
          → Executed ps Erased (k ∷ ks) q
      joined (s1, none) h x = (h, x)
      joined (s1, some f) h x = inr (h, x)

      first :
          (q : S × (ℕ × Option Error))
          → Tried k q
          → Executed ps Erased ks (execute ps ks u q.0)
          → Executed ps Erased (k ∷ ks) (next q)
      first (s1, (n, some e)) t r = inl (refl, t.0, t.1)
      first (s1, (n, none)) t r = joined (execute ps ks u s1) (execute-keeps k ks s1 t.0) r
