-- ===== src/Validity/Lifecycle/Processes.antt =====
-- Theorems about the PIDs of lifecycle cases, of validity/lifecycle.py.
use fog_http_benchmark.Prelude.{
  ◌≡◌, refl, ◌≢◌, ◌↔◌, inl, inr, true, false, Option, none, some, List, [], ◌∷◌, ◌++◌, contains,
  All, IsDistinct, Bool-cases, arith,
}
use fog_http_benchmark.Prelude.Int.{ℤ, ℤ_eq}
use fog_http_benchmark.Json.{JsonObject, get}
use fog_http_benchmark.Runtime.{Runtime}
use fog_http_benchmark.Validity.Summary.{ValidityReason}
use fog_http_benchmark.Validity.Lifecycle.{
  pid_of, pid_reused, note_pid, pids_from, pid_reuse_reasons,
}

abbrev pub pid_list : Option ℤ → List ℤ
pid_list none = []
pid_list (some pid) = pid ∷ []

-- The PIDs of the clients and servers of cases, in order.
abbrev pub owned_pids : List JsonObject → List ℤ
owned_pids [] = []
owned_pids (case ∷ cases) =
    pid_list (pid_of (get case "client_pid"))
    ++ (pid_list (pid_of (get case "server_pid")) ++ owned_pids cases)

-- each PID is new when its turn comes
abbrev AreFresh : List ℤ → List ℤ → Type 0
AreFresh seen [] = Unit
AreFresh seen (pid ∷ pids) = (contains pid seen ≡ false) × AreFresh (pid ∷ seen) pids

abbrev AreUnseen : List ℤ → List ℤ → Type 0
AreUnseen seen = All (λ pid. contains pid seen ≡ false)

AreUnseen-cons :
    (x : ℤ) (seen ys : List ℤ) → AreUnseen (x ∷ seen) ys ↔ (All (λ y. x ≢ y) ys × AreUnseen seen ys)
unfolding contains
AreUnseen-cons x seen [] = (λ h. (tt, tt), λ h. tt)
AreUnseen-cons x seen (y ∷ ys) =
    let tail = AreUnseen-cons x seen ys in
    let head = one y in
    (
      λ h. (((head.0 h.0).0, (tail.0 h.1).0), ((head.0 h.0).1, (tail.0 h.1).1)),
      λ h. (head.1 (h.0.0, h.1.0), tail.1 (h.0.1, h.1.1)),
    )
  where
    one : (y : ℤ) → (contains y (x ∷ seen) ≡ false) ↔ ((x ≢ y) × (contains y seen ≡ false))
    one y = ground (arith, ℤ_eq.decides y x)

AreFresh-IsDistinct :
    (seen pids : List ℤ) → AreFresh seen pids ↔ (AreUnseen seen pids × IsDistinct pids)
AreFresh-IsDistinct seen [] = (λ h. (tt, tt), λ h. tt)
AreFresh-IsDistinct seen (x ∷ pids) =
    let rest = AreFresh-IsDistinct (x ∷ seen) pids in
    let split = AreUnseen-cons x seen pids in
    (
      λ h.
          let (unseen, distinct) = rest.0 h.1 in
          let (others, old) = split.0 unseen in ((h.0, old), (others, distinct)),
      λ h. (h.0.0, rest.1 (split.1 (h.1.0, h.0.1), h.1.1)),
    )

-- no reason so far, and none to come
abbrev IsGood : List ℤ × List ValidityReason → List ℤ → Type 0
IsGood acc pids = (acc.1 ≡ []) × AreFresh acc.0 pids

no_end : (rs : List ValidityReason) (x : ValidityReason) → rs ++ x ∷ [] ≡ [] → ⊥
no_end [] x h = cc h
no_end (r ∷ rs) x h = cc h

module _ ⦃r : Runtime⦄ where
  note_pid_iff :
      (case : JsonObject) (pid : Option ℤ) (acc : List ℤ × List ValidityReason) (pids : List ℤ)
      → IsGood (note_pid case pid acc) pids ↔ IsGood acc (pid_list pid ++ pids)
  unfolding note_pid
  note_pid_iff case none acc pids = (λ h. h, λ h. h)
  note_pid_iff case (some pid) (seen, reasons) pids = elim (Bool-cases (contains pid seen)) [
    | inl old ↦
        rw old (λ h. absurd (no_end reasons (pid_reused case) h.0), λ h. absurd (differ h.1.0))
    | inr new ↦ rw new (λ h. (h.0, (refl, h.1)), λ h. (h.0, h.1.1))
  ]
    where
      differ : true ≡ false → ⊥
      differ h = cc h

  pids_from_iff :
      (cases : List JsonObject) (acc : List ℤ × List ValidityReason)
      → (pids_from cases acc ≡ []) ↔ IsGood acc (owned_pids cases)
  unfolding pids_from
  pids_from_iff [] (seen, reasons) = (λ h. (h, tt), λ h. h.0)
  pids_from_iff (case ∷ cases) acc =
      let client = pid_of (get case "client_pid") in
      let server = pid_of (get case "server_pid") in
      let step = note_pid case client acc in
      let rest = pids_from_iff cases (note_pid case server step) in
      let second = note_pid_iff case server step (owned_pids cases) in
      let first = note_pid_iff case client acc (pid_list server ++ owned_pids cases) in
      (λ h. first.0 (second.0 (rest.0 h)), λ h. rest.1 (second.1 (first.1 h)))

  -- Lifecycle cases raise no objection to their processes exactly when no two of the PIDs that they
  -- record for clients and servers are equal.
  pub pid_reuse_reasons_iff :
      (cases : List JsonObject) → (pid_reuse_reasons cases ≡ []) ↔ IsDistinct (owned_pids cases)
  unfolding pid_reuse_reasons contains
  pid_reuse_reasons_iff cases =
      let loop = pids_from_iff cases ([], []) in
      let fresh = AreFresh-IsDistinct [] (owned_pids cases) in
      (λ h. (fresh.0 (loop.0 h).1).1, λ h. loop.1 (refl, fresh.1 (unseen (owned_pids cases), h)))
    where
      unseen : (pids : List ℤ) → AreUnseen [] pids
      unseen [] = tt
      unseen (pid ∷ pids) = (refl, unseen pids)
