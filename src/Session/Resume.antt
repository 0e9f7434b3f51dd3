-- ===== src/Session/Resume.antt =====
-- Resuming a paged Browse result: a page with what its continuation point gives is the whole result.
use opcuapp.Base.{
  ℕ, ◌<◌, ◌≡◌, refl, sym, ap, ◌∙◌, Bool, true, false, none, some, List, [], ◌++◌, arith, length,
  if◌then◌else◌, drop, take-append-drop, length-take, Bool-cases, Option-cases, inl, inr,
}
use opcuapp.Base.Keyed.{find, remove, find-assign, find-remove}
use opcuapp.Types.Status.{good, bad_continuation_point_invalid}
use opcuapp.Types.NodeId.{same_bytes, same_bytes_refl, same_bytes_iff}
use opcuapp.Session.State.{ServerSession}
use opcuapp.Session.Browse.{
  bytes_key, BrowseResult, status_result, page_browse_result, resume_browse_result, browse_next_one,
}
use opcuapp.Session.Paging.{point, opened, page_browse_result-opened}

module _ {R : Type 0} where
  find_closed :
      (s : ServerSession R) (k other : List ℕ)
      → find k s.browse_continuations ≡ none
      → find other s.browse_continuations
        ≡ (if same_bytes k other then none else find other s.browse_continuations)
  find_closed s k other e = elim (Bool-cases (same_bytes k other)) [
    | inl same ↦ rw same (rw ((same_bytes_iff k other).0 same) at e)
    | inr differs ↦ rw differs refl
  ]

  browse_next_one-none :
      (s : ServerSession R) (release : Bool) (k : List ℕ)
      → find k s.browse_continuations ≡ none
      → browse_next_one s release k ≡ (s, status_result bad_continuation_point_invalid)
  unfolding browse_next_one
  browse_next_one-none s release k e = rw (e, browse_next_one) refl

  resume_browse_result-some :
      (s : ServerSession R) (k : List ℕ) (rest : List R)
      → find k s.browse_continuations ≡ some rest
      → resume_browse_result s k ≡ (
        record s { browse_continuations = remove k s.browse_continuations },
        record (status_result good) { references = rest },
      )
  unfolding resume_browse_result
  resume_browse_result-some s k rest e = rw (e, resume_browse_result) refl

  browse_next_one-some :
      (s : ServerSession R) (release : Bool) (k : List ℕ) (rest : List R)
      → find k s.browse_continuations ≡ some rest
      → browse_next_one s release k ≡ (
        record s { browse_continuations = remove k s.browse_continuations },
        record (status_result good) { references = if release then [] else rest },
      )
  unfolding browse_next_one
  browse_next_one-some s true k rest e = rw (e, browse_next_one) refl
  browse_next_one-some s false k rest e =
      rw (e, browse_next_one) (resume_browse_result-some s k rest e)

  -- A reply hangs on nothing but what the point is found to hold.
  browse_next_one_reply :
      (s t : ServerSession R) (k : List ℕ)
      → find k s.browse_continuations ≡ find k t.browse_continuations
      → (browse_next_one s false k).1 ≡ (browse_next_one t false k).1
  browse_next_one_reply s t k e = elim (Option-cases (find k s.browse_continuations)) [
    | inl f ↦ rw (browse_next_one-none s false k f, browse_next_one-none t false k (sym e ∙ f)) refl
    | inr (rest, f) ↦
        rw (browse_next_one-some s false k rest f, browse_next_one-some t false k rest (sym e ∙ f))
          refl
  ]

  -- BrowseNext on a point, resuming or releasing it, is Good exactly when the point is open, with the
  -- references that it held unless it is released; then that point is closed, every other one holds
  -- what it held, and nothing else of the session changes.
  pub browse_next_one-closes :
      (s : ServerSession R) (release : Bool) (k other : List ℕ)
      → (find other (browse_next_one s release k).0.browse_continuations
          ≡ (if same_bytes k other then none else find other s.browse_continuations))
        × ((record (browse_next_one s release k).0 {
          browse_continuations = s.browse_continuations;
        })
            ≡ s)
        × ((browse_next_one s release k).1 ≡ (elim (find k s.browse_continuations) [
          | none ↦ status_result bad_continuation_point_invalid
          | some references ↦ record (status_result good) {
            references = if release then [] else references;
          }
        ]))
  browse_next_one-closes s release k other = elim (Option-cases (find k s.browse_continuations)) [
    | inl e ↦ rw (browse_next_one-none s release k e, e) (find_closed s k other e, refl, refl)
    | inr (rest, e) ↦
        rw (browse_next_one-some s release k rest e, e)
          (find-remove k other s.browse_continuations, refl, refl)
  ]

  -- What becomes of a result that is paged after `n` references.
  pub record Resumes (s : ServerSession R) (result : BrowseResult R) (n : ℕ) (s' : ServerSession R)
      (page : BrowseResult R) : Type 0 where
    pub page_length : length page.references ≡ n
    pub page_status : page.status_code ≡ result.status_code
    pub once :
        (release : Bool)
        → (browse_next_one
            (browse_next_one s' release page.continuation_point).0
            false
            page.continuation_point).1
          ≡ status_result bad_continuation_point_invalid
    pub replies :
        (k : List ℕ)
        → (browse_next_one s' false k).1 ≡ (
            if same_bytes page.continuation_point k
            then record {
              status_code = good;
              continuation_point = [];
              references = drop n result.references;
            }
            else (browse_next_one s false k).1)
    pub whole :
        page.references ++ (browse_next_one s' false page.continuation_point).1.references
        ≡ result.references

  opened-Resumes :
      (s : ServerSession R) (result : BrowseResult R) (n : ℕ)
      → n < length result.references
      → Resumes s result n (opened s result n).0 (opened s result n).1
  opened-Resumes s result n h =
      let c = point s.next_browse_continuation_id in
      let rest = drop n result.references in
      let t = (opened s result n).0 in
      let found : find c t.browse_continuations ≡ some rest =
        find-assign c c rest s.browse_continuations ∙ rw (same_bytes_refl c) refl in
      record {
        page_length = omega (arith, length-take n result.references);
        page_status = refl;
        whole =
            rw (browse_next_one-some t false c rest found) (take-append-drop n result.references);
        once = λ release. rw (browse_next_one-some t release c rest found) (
            ap (λ x. x.1)
              (browse_next_one-none _ false c
                (find-remove c c t.browse_continuations ∙ rw (same_bytes_refl c) refl)));
        replies = λ k. elim (Bool-cases (same_bytes c k)) [
          | inl e ↦
              rw
                (
                  e,
                  browse_next_one-some t false k rest
                      (find-assign c k rest s.browse_continuations ∙ rw e refl),
                )
                refl
          | inr e ↦ rw e (
              browse_next_one_reply t s k (find-assign c k rest s.browse_continuations ∙ rw e refl))
        ];
      }

  -- Of a result with more than `n` references, `n` not zero, while fewer than 100 points are open and
  -- the one that the counter gives next is not open, the page has the first `n` and the status, and
  -- BrowseNext on its continuation point gives the rest, so that the two are the whole result. A point
  -- that was resumed or released is invalid, and BrowseNext on any other point answers as before.
  pub browse_next_one-page_browse_result :
      (s : ServerSession R) (result : BrowseResult R) (n : ℕ)
      → find (point s.next_browse_continuation_id) s.browse_continuations ≡ none
      → 0 < n
      → n < length result.references
      → length s.browse_continuations < 100
      → Resumes s result n (page_browse_result s result n).0 (page_browse_result s result n).1
  browse_next_one-page_browse_result s result n closed positive more room =
      rw (page_browse_result-opened s result n (ground arith) (ground arith) closed)
        (opened-Resumes s result n more)
