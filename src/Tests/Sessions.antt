-- ===== src/Tests/Sessions.antt =====
-- The session's theorems at concrete inputs.
use opcuapp.Base.{some, none, ℕ, if◌then◌else◌, List, inr, ◌≡◌, refl, true, [], ◌∷◌, arith}
use opcuapp.Base.Assoc.{lookup}
use opcuapp.Base.Keyed.{find}
use opcuapp.Types.Status.{good, bad_continuation_point_invalid}
use opcuapp.Types.NodeId.{same_bytes}
use opcuapp.Subscription.State.{is_publish_ready, publishing_interval, prime_publish_cycle}
use opcuapp.Subscription.Publishing.{try_publish, publish_notifications}
use opcuapp.Session.Publish.{poll_publish, publish, publish_index, is_ready_at}
use opcuapp.Session.Browse.{bytes_key, status_result, page_browse_result, browse_next_one}
use opcuapp.Session.Cursor.{IsPointed}
use opcuapp.Session.Requests.{publishing, deleting, serve_all, serve_all-IsPointed}
use opcuapp.Session.Serving.{Chosen, publish_index-Chosen, Served, poll_publish-Served}
use opcuapp.Session.Resume.{browse_next_one-closes, Resumes, browse_next_one-page_browse_result}
use opcuapp.Tests.Data.{doubles, session, browsed}

publish_index-Chosen_example : Chosen doubles session 20000 (publish_index doubles session 20000)
publish_index-Chosen_example = publish_index-Chosen doubles session 20000 (omega arith)

poll_publish-Served_example : Served doubles session 20000 (poll_publish doubles session 20000)
unfolding is_ready_at lookup is_publish_ready publishing_interval
poll_publish-Served_example =
    poll_publish-Served doubles session 20000 0 (inr (omega arith)) (omega arith) refl

abbrev first_point : List ℕ
first_point = 1 ∷ 0 ∷ 0 ∷ 0 ∷ []

-- Releasing the point that the first page gave.
browse_next_one-closes_example :
    let paged = (page_browse_result session browsed 2).0 in
    (find first_point (browse_next_one paged true first_point).0.browse_continuations ≡ (
      if same_bytes first_point first_point
      then none
      else find first_point paged.browse_continuations))
    × ((record (browse_next_one paged true first_point).0 {
      browse_continuations = paged.browse_continuations;
    })
        ≡ paged)
    × ((browse_next_one paged true first_point).1
        ≡ (elim (find first_point paged.browse_continuations) [
          | none ↦ status_result bad_continuation_point_invalid
          | some references ↦ record (status_result good) { references = [] }
        ]))
browse_next_one-closes_example =
    browse_next_one-closes (page_browse_result session browsed 2).0 true first_point first_point

browse_next_one-page_browse_result_example :
    Resumes session browsed 2
      (page_browse_result session browsed 2).0
      (page_browse_result session browsed 2).1
unfolding find
browse_next_one-page_browse_result_example =
    browse_next_one-page_browse_result session browsed 2 refl (omega arith) (omega arith)
      (omega arith)

serve_all-IsPointed_example :
    IsPointed (serve_all doubles session (publishing [] 20000 ∷ deleting (1 ∷ []) ∷ []))
serve_all-IsPointed_example =
    serve_all-IsPointed doubles session (publishing [] 20000 ∷ deleting (1 ∷ []) ∷ [])
      (inr (omega arith))

-- The cursor stands at the second subscription, which is idle: the first one is served, and the cursor
-- moves to the second again.
publish_serves : (publish doubles session [] 20000).1.notification_message.sequence_number ≡ 2
unfolding publish is_ready_at lookup is_publish_ready publishing_interval try_publish
    prime_publish_cycle publish_notifications
publish_serves = refl

publish_cursor : (publish doubles session [] 20000).0.next_publish_index ≡ 1
unfolding publish is_ready_at lookup is_publish_ready publishing_interval try_publish
    prime_publish_cycle publish_notifications
publish_cursor = refl

pages : (page_browse_result session browsed 2).1.references ≡ 21 ∷ 22 ∷ []
unfolding page_browse_result
pages = refl
