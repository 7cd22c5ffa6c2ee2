-- ===== src/Delta/Hashes.antt =====
-- features/delta/extract.py: `_diff_hashes`, the comparison of two maps from path to hash.
use ai_forge_memory.Prelude.{
  String, Bool, true, false, not, ◌&&◌, Option, none, some, List, ◌≡◌, ◌≢◌, refl, ◌↔◌, ◌==◌, eq_iff,
  arith, keep, is_some, ap,
}
use ai_forge_memory.Prelude.Dict.{Dict, lookup, has, keys, In-keys_iff}
use ai_forge_memory.Prelude.Members.{In-keep_iff}
use ai_forge_memory.Prelude.Sort.{In, sorted, IsSorted, In-sorted, sorted-IsSorted}

-- added, modified, deleted
pub record Changes : Type 0 where
  pub added : List String
  pub modified : List String
  pub deleted : List String

abbrev same_hash : Option String → Option String → Bool
same_hash (some a) (some b) = a == b
same_hash none none = true
same_hash _ _ = false

abbrev is_new : Dict String → String → Bool
is_new prev p = not (has p prev)

abbrev is_modified : Dict String → Dict String → String → Bool
is_modified prev cur p = has p prev && not (same_hash (lookup p cur) (lookup p prev))

-- The comprehensions range over the keys, of which a dict has each once.
unfoldable pub diff_hashes : Dict String → Dict String → Changes
diff_hashes prev cur = record {
  added = sorted (keep (is_new prev) (keys cur));
  modified = sorted (keep (is_modified prev cur) (keys cur));
  deleted = sorted (keep (is_new cur) (keys prev));
}

In-sorted-keep :
    (p : String → Bool) (x : String) (d : Dict String)
    → In x (sorted (keep p (keys d))) ↔ ((has x d ≡ true) × (p x ≡ true))
In-sorted-keep p x d =
    let s : In x (sorted (keep p (keys d))) ↔ In x (keep p (keys d)) =
      In-sorted x (keep p (keys d)) in
    let k : In x (keep p (keys d)) ↔ (In x (keys d) × (p x ≡ true)) = In-keep_iff p x (keys d) in
    let h : In x (keys d) ↔ (has x d ≡ true) = In-keys_iff x d in
    (λ m. (h.0 (k.0 (s.0 m)).0, (k.0 (s.0 m)).1), λ (a, b). s.1 (k.1 (h.1 a, b)))

new_iff :
    (now before : Option String)
    → ((is_some now ≡ true) × (not (is_some before) ≡ true)) ↔ ((now ≢ none) × (before ≡ none))
new_iff none b = (λ h. cc h.0, λ h. absurd (h.0 refl))
new_iff (some a) none = (λ h. (λ e. cc, refl), λ h. (refl, refl))
new_iff (some a) (some b) = (λ h. cc h.1, λ h. cc h.1)

modified_iff :
    (now before : Option String)
    → ((is_some now ≡ true) × ((is_some before && not (same_hash now before)) ≡ true))
      ↔ ((before ≢ none) × (now ≢ none) × (now ≢ before))
modified_iff none b = (λ h. cc h.0, λ h. absurd (h.1 refl))
modified_iff (some a) none = (λ h. cc h.1, λ h. absurd (h.0 refl))
modified_iff (some a) (some b) = (
  λ h. (λ e. cc, λ e. cc, λ e. ground (arith, eq_iff a b)),
  λ h. (refl, ground (arith, eq_iff a b, ap {B = Option String} some, h.2)),
)

iff_trans {ℓ κ μ} : {A : Type ℓ} {B : Type κ} {C : Type μ} → A ↔ B → B ↔ C → A ↔ C
iff_trans f g = (λ a. g.0 (f.0 a), λ c. f.1 (g.1 c))

-- The three lists are sorted; a path is added when it has a hash now and had none, deleted when it
-- had one and has none now, and modified when it has one in both and the two differ.
pub diff_hashes_iff :
    (prev cur : Dict String) (p : String)
    → let c = diff_hashes prev cur in
      (IsSorted c.added × IsSorted c.modified × IsSorted c.deleted)
      × (In p c.added ↔ ((lookup p cur ≢ none) × (lookup p prev ≡ none)))
      × (In p c.deleted ↔ ((lookup p prev ≢ none) × (lookup p cur ≡ none)))
      × (In p c.modified
          ↔ ((lookup p prev ≢ none) × (lookup p cur ≢ none) × (lookup p cur ≢ lookup p prev)))
unfolding diff_hashes
diff_hashes_iff prev cur p = (
  (sorted-IsSorted _, sorted-IsSorted _, sorted-IsSorted _),
  iff_trans (In-sorted-keep (is_new prev) p cur) (new_iff (lookup p cur) (lookup p prev)),
  iff_trans (In-sorted-keep (is_new cur) p prev) (new_iff (lookup p prev) (lookup p cur)),
  iff_trans (In-sorted-keep (is_modified prev cur) p cur)
      (modified_iff (lookup p cur) (lookup p prev)),
)
