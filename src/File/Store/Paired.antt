-- ===== src/File/Store/Paired.antt =====
-- features/file: a pass of summaries over the graph.
use ai_forge_memory.Prelude.{
  ℕ, ◌≤◌, String, Bool, true, false, ◌&&◌, Option, List, [], ◌∷◌, ◌==◌, ◌≡◌, ◌≢◌, refl, ◌∙◌, ◌⊎◌,
  inl, inr, length, All, arith, text_cases, if◌then◌else◌,
}
use ai_forge_memory.Prelude.Text.{Text}
use ai_forge_memory.File.{SourceFile, FileSummary, Machine, summarize_files}
use ai_forge_memory.File.Outcome.{IsOutcome, AreOutcomes, summarize_files-AreOutcomes}
use ai_forge_memory.File.Store.{
  FileNode, Written, text_or, tags_or, new_tags, updated, update_file, counted, write_summaries,
}

-- The node has a summary and tags, or neither.
abbrev pub IsPaired : FileNode → Type 0
IsPaired n =
    ((text_or n.summary ≢ "") × (1 ≤ length (tags_or n.purpose_tags)))
    ⊎ ((text_or n.summary ≡ "") × (tags_or n.purpose_tags ≡ []))

-- It is the same file, which is paired if it was, and has a summary if it had one.
abbrev Keeps : FileNode → FileNode → Type 0
Keeps n n' =
    (n'.repo ≡ n.repo)
    × (n'.path ≡ n.path)
    × (IsPaired n → IsPaired n')
    × ((text_or n.summary ≡ "") ⊎ (text_or n'.summary ≢ ""))

abbrev AllKeep : List FileNode → List FileNode → Type 0
AllKeep [] [] = Unit
AllKeep [] (n ∷ ns) = ⊥
AllKeep (n ∷ ns) [] = ⊥
AllKeep (n ∷ ns) (m ∷ ms) = Keeps n m × AllKeep ns ms

decide_blank : (s : String) → (s ≡ "") ⊎ (s ≢ "")
decide_blank s = elim (text_cases s "") [ inl e ↦ inl e | inr (f, n) ↦ inr n ]

Keeps-refl : (n : FileNode) → Keeps n n
Keeps-refl n = (refl, refl, (λ h. h), decide_blank (text_or n.summary))

some_tags :
    (ts : List Text) (old : Option (List Text)) → 1 ≤ length ts → 1 ≤ length (new_tags ts old)
some_tags [] old h = absurd (omega arith)
some_tags (t ∷ ts) old h = h

updated-Keeps :
    (f : SourceFile) (s : FileSummary) (n : FileNode) → IsOutcome f s → Keeps n (updated s n)
updated-Keeps f s n (p, inl (r, full, few, many)) = elim (text_cases s.summary "") [
  | inl e ↦ absurd (full e)
  | inr (b, _) ↦
      rw b (refl, refl, (λ h. inl (full, some_tags s.purpose_tags n.purpose_tags few)), inr full)
]
updated-Keeps f s n (p, inr (e, t)) =
    rw (e, t) (refl, refl, (λ h. h), decide_blank (text_or n.summary))

Keeps-trans : (a b c : FileNode) → Keeps a b → Keeps b c → Keeps a c
Keeps-trans a b c (r, p, k, h) (r', p', k', h') = (r' ∙ r, p' ∙ p, (λ x. k' (k x)), either h h')
  where
    either :
        (text_or a.summary ≡ "") ⊎ (text_or b.summary ≢ "")
        → (text_or b.summary ≡ "") ⊎ (text_or c.summary ≢ "")
        → (text_or a.summary ≡ "") ⊎ (text_or c.summary ≢ "")
    either (inl e) h' = inl e
    either (inr n) (inl e) = absurd (n e)
    either (inr n) (inr n') = inr n'

AllKeep-refl : (ns : List FileNode) → AllKeep ns ns
AllKeep-refl [] = tt
AllKeep-refl (n ∷ ns) = (Keeps-refl n, AllKeep-refl ns)

AllKeep-trans : (xs bs cs : List FileNode) → AllKeep xs bs → AllKeep bs cs → AllKeep xs cs
AllKeep-trans [] [] [] h k = tt
AllKeep-trans [] [] (c ∷ cs) h k = absurd k
AllKeep-trans [] (b ∷ bs) cs h k = absurd h
AllKeep-trans (a ∷ xs) [] cs h k = absurd h
AllKeep-trans (a ∷ xs) (b ∷ bs) [] h k = absurd k
AllKeep-trans (a ∷ xs) (b ∷ bs) (c ∷ cs) (h, hs) (k, ks) =
    (Keeps-trans a b c h k, AllKeep-trans xs bs cs hs ks)

update_file-AllKeep :
    (repo : String) (f : SourceFile) (s : FileSummary) (ns : List FileNode)
    → IsOutcome f s
    → AllKeep ns (update_file repo s ns)
unfolding update_file
update_file-AllKeep repo f s [] h = tt
update_file-AllKeep repo f s (n ∷ ns) h =
    (by_test (n.repo == repo && n.path == s.path), update_file-AllKeep repo f s ns h)
  where
    by_test : (b : Bool) → Keeps n (if b then updated s n else n)
    by_test true = updated-Keeps f s n h
    by_test false = Keeps-refl n

write_summaries-AllKeep :
    (repo : String) (fs : List SourceFile) (ss : List FileSummary) (ns : List FileNode)
    (w : Written)
    → AreOutcomes fs ss
    → AllKeep ns (write_summaries repo ss ns w).1
unfolding write_summaries
write_summaries-AllKeep repo [] [] ns w h = AllKeep-refl ns
write_summaries-AllKeep repo [] (s ∷ ss) ns w h = absurd h
write_summaries-AllKeep repo (f ∷ fs) [] ns w h = absurd h
write_summaries-AllKeep repo (f ∷ fs) (s ∷ ss) ns w (h, hs) =
    AllKeep-trans ns (update_file repo s ns)
      (write_summaries repo ss (update_file repo s ns) (counted s w)).1
      (update_file-AllKeep repo f s ns h)
      (write_summaries-AllKeep repo fs ss (update_file repo s ns) (counted s w) hs)

-- The same files, each with a summary if it had one.
abbrev pub AreKept : List FileNode → List FileNode → Type 0
AreKept [] [] = Unit
AreKept [] (n ∷ ns) = ⊥
AreKept (n ∷ ns) [] = ⊥
AreKept (n ∷ ns) (m ∷ ms) =
    ((m.repo ≡ n.repo) × (m.path ≡ n.path) × ((text_or n.summary ≡ "") ⊎ (text_or m.summary ≢ "")))
    × AreKept ns ms

AllKeep-AreKept :
    (ns ms : List FileNode) → AllKeep ns ms → All IsPaired ns → AreKept ns ms × All IsPaired ms
AllKeep-AreKept [] [] k h = (tt, tt)
AllKeep-AreKept [] (m ∷ ms) k h = absurd k
AllKeep-AreKept (n ∷ ns) [] k h = absurd k
AllKeep-AreKept (n ∷ ns) (m ∷ ms) ((r, p, keeps, s), k) (x, h) =
    let (a, b) = AllKeep-AreKept ns ms k h in (((r, p, s), a), (keeps x, b))

-- Where every file node has a summary and tags, or neither, this is still so once the summaries of a
-- pass are written, whatever the model and the disk answer; the nodes are the same files, and none
-- that had a summary is without one.
pub summarize_files-ArePaired :
    (m : Machine) (max_file_bytes : ℕ) (fs : List SourceFile) (repo : String) (ns : List FileNode)
    (w : Written)
    → All IsPaired ns
    → let after = (write_summaries repo (summarize_files m max_file_bytes fs) ns w).1 in
      AreKept ns after × All IsPaired after
summarize_files-ArePaired m max_file_bytes fs repo ns w h =
    let ss = summarize_files m max_file_bytes fs in
    AllKeep-AreKept ns (write_summaries repo ss ns w).1
      (write_summaries-AllKeep repo fs ss ns w (summarize_files-AreOutcomes m max_file_bytes fs)) h
