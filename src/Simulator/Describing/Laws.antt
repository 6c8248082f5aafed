-- ===== src/Simulator/Describing/Laws.antt =====
-- `describeScreen` gives a usable screen or says why there is none.
use simgadget.Prelude.{
  ◌≡◌, refl, if◌then◌else◌, inl, inr, Bool, true, false, ◌||◌, List, [], ◌∷◌, Option, none, some,
  Bool-cases,
}
use simgadget.Prelude.Run.{Reply, value, throws, Run, done, and_then}
use simgadget.Ax.Element.{Frame, RawTree, AxTree, is_degenerate_tree}
use simgadget.Simulator.Describing.{
  Verdict, booting, unrecoverable, Failure, unreadable, failed, Outside, Act, reads_screen,
  describes_all, pruned, is_degenerate, read_screen_tree, probe_points, diagnosis, probed,
  diagnose_empty_tree, or_unreadable, conclude, diagnosed, describe_screen, not_found, cured,
  read_again, root_frame, screen_from, ScreenRead,
}

-- What is handed out is usable; what is thrown as unreadable has this verdict.
abbrev pub Tells : Verdict → Reply Failure AxTree → Type 0
Tells verdict (value elements) = is_degenerate elements ≡ false
Tells verdict (throws (unreadable v)) = v ≡ verdict
Tells verdict (throws not_found) = Unit
Tells verdict (throws (failed message)) = Unit

-- A read throws no such error itself.
abbrev pub Plain : {A : Type 0} → Reply Failure A → Type 0
Plain (value a) = Unit
Plain (throws (unreadable v)) = ⊥
Plain (throws not_found) = Unit
Plain (throws (failed message)) = Unit

Tells-and_then :
    (verdict : Verdict) {A : Type 0} (acts : List Act) (reply : Reply Failure A)
    (next : A → Run Act Failure AxTree)
    → Plain reply
    → ((a : A) → Tells verdict (next a).ended)
    → Tells verdict (and_then (record { acts = acts; ended = reply }) next).ended
Tells-and_then verdict acts (value a) next plain tells = tells a
Tells-and_then verdict acts (throws not_found) next plain tells = tt
Tells-and_then verdict acts (throws (failed message)) next plain tells = tt
Tells-and_then verdict acts (throws (unreadable v)) next plain tells = absurd plain

Plain-pruned : (reply : Reply Failure RawTree) → Plain reply → Plain (pruned reply)
Plain-pruned (value tree) plain = tt
Plain-pruned (throws not_found) plain = tt
Plain-pruned (throws (failed message)) plain = tt
Plain-pruned (throws (unreadable v)) plain = plain

last-Tells : (verdict : Verdict) (now : AxTree) → Tells verdict (or_unreadable verdict now).ended
last-Tells verdict now = elim (Bool-cases (is_degenerate now)) [
  | inl empty ↦ rw (empty, or_unreadable, Tells) refl
  | inr usable ↦ rw (usable, or_unreadable, Tells) usable
]

diagnosis-verdict : (b r : Bool) → (diagnosis b r).0 ≡ (if b then unrecoverable else booting)
diagnosis-verdict true r = refl
diagnosis-verdict false r = refl

Tells-same : (v w : Verdict) (reply : Reply Failure AxTree) → v ≡ w → Tells v reply → Tells w reply
Tells-same v w (value elements) e tells = tells
Tells-same v w (throws (unreadable u)) e tells = cc
Tells-same v w (throws not_found) e tells = tt
Tells-same v w (throws (failed message)) e tells = tt

-- The same of the screen handed out.
abbrev pub TellsScreen : Verdict → Reply Failure ScreenRead → Type 0
TellsScreen verdict (value screen_read) = is_degenerate screen_read.elements ≡ false
TellsScreen verdict (throws (unreadable v)) = v ≡ verdict
TellsScreen verdict (throws not_found) = Unit
TellsScreen verdict (throws (failed message)) = Unit

screen_from-Tells :
    (verdict : Verdict) (elements : AxTree) (frame : Option Frame)
    → is_degenerate elements ≡ false
    → root_frame elements ≡ frame
    → TellsScreen verdict (screen_from elements).ended
screen_from-Tells verdict elements none usable e = rw (e, screen_from) usable
screen_from-Tells verdict elements (some frame) usable e = rw (e, screen_from) usable

Tells-screen_from :
    (verdict : Verdict) (acts : List Act) (reply : Reply Failure AxTree)
    → Tells verdict reply
    → TellsScreen verdict (and_then (record { acts = acts; ended = reply }) screen_from).ended
Tells-screen_from verdict acts (value elements) tells =
    screen_from-Tells verdict elements (root_frame elements) tells refl
Tells-screen_from verdict acts (throws (unreadable v)) tells = tells
Tells-screen_from verdict acts (throws not_found) tells = tt
Tells-screen_from verdict acts (throws (failed message)) tells = tt

if_deleted-Tells :
    (verdict : Verdict) (deleted : Bool) (r : Run Act Failure ScreenRead)
    → TellsScreen verdict r.ended
    → TellsScreen verdict (if deleted then done (throws not_found) else r).ended
if_deleted-Tells verdict true r tells = tt
if_deleted-Tells verdict false r tells = tells

module _ (o : Outside) where
  conclude-Tells :
      (elements : AxTree) (verdict : Verdict) (recovered : Bool)
      → Plain o.last_read
      → Tells verdict (conclude o elements (verdict, recovered)).ended
  conclude-Tells elements verdict true plain =
      Tells-and_then verdict (reads_screen ∷ []) (pruned o.last_read) (or_unreadable verdict)
        (Plain-pruned o.last_read plain) (last-Tells verdict)
  conclude-Tells elements verdict false plain = last-Tells verdict elements

  -- The verdict that the point reads give.
  abbrev pub points_verdict : Verdict
  points_verdict =
      if o.point_answers 0 || o.point_answers 1 || o.point_answers 2 then unrecoverable else booting

  probed-any : (probed o).1 ≡ (o.point_answers 0 || o.point_answers 1 || o.point_answers 2)
  unfolding probed probe_points
  probed-any = elim (Bool-cases (o.point_answers 0)) [
    | inl zeroth ↦ rw zeroth refl
    | inr missed ↦ elim (Bool-cases (o.point_answers 1)) [
      | inl first ↦ rw (missed, first) refl
      | inr missed_too ↦ elim (Bool-cases (o.point_answers 2)) [
        | inl second ↦ rw (missed, missed_too, second) refl
        | inr silent ↦ rw (missed, missed_too, silent) refl
      ]
    ]
  ]

  diagnosed-Tells :
      (elements : AxTree) → Plain o.last_read → Tells points_verdict (diagnosed o elements).ended
  unfolding diagnosed diagnose_empty_tree
  diagnosed-Tells elements plain = elim (Bool-cases (is_degenerate elements)) [
    | inl empty ↦
        rw (empty, diagnosed)
          (Tells-same (diagnosis (probed o).1 o.restart_helps).0 points_verdict
            (conclude o elements (diagnosis (probed o).1 o.restart_helps)).ended
            (rw (diagnosis-verdict (probed o).1 o.restart_helps, probed-any) refl)
            (conclude-Tells elements (diagnosis (probed o).1 o.restart_helps).0
              (diagnosis (probed o).1 o.restart_helps).1 plain))
    | inr usable ↦ rw (usable, diagnosed, Tells) usable
  ]

  cured-Tells :
      (elements : AxTree)
      → Plain o.describe_all
      → Plain o.second_read
      → Plain o.last_read
      → Tells points_verdict (cured o elements).ended
  unfolding cured read_again
  cured-Tells elements all second last = elim (Bool-cases (is_degenerate elements)) [
    | inr usable ↦ rw (usable, cured, Tells) usable
    | inl empty ↦
        rw (empty, cured)
          (Tells-and_then points_verdict (describes_all ∷ []) o.describe_all (read_again o elements)
            all
            λ tree. elim (Bool-cases (is_degenerate_tree tree)) [
              | inl still ↦ rw (still, read_again) (diagnosed-Tells elements last)
              | inr back ↦
                  rw (back, read_again)
                    (Tells-and_then points_verdict (reads_screen ∷ []) (pruned o.second_read)
                      (diagnosed o) (Plain-pruned o.second_read second)
                      (λ again. diagnosed-Tells again last))
            ])
  ]

  -- Where the reads throw no error that says the screen is unreadable: what `describeScreen` hands
  -- out is not degenerate, and if it throws that the screen is unreadable, its verdict is that the
  -- simulator is beyond recovery if one of up to three point reads answers, and else that it is booting.
  pub describe_screen-Tells :
      Plain o.first_read
      → Plain o.describe_all
      → Plain o.second_read
      → Plain o.last_read
      → TellsScreen points_verdict (describe_screen o).ended
  unfolding describe_screen probed
  describe_screen-Tells first all second last =
      if_deleted-Tells points_verdict o.deleted
        (and_then (and_then (read_screen_tree o.first_read) (cured o)) screen_from)
        (Tells-screen_from points_verdict (and_then (read_screen_tree o.first_read) (cured o)).acts
          (and_then (read_screen_tree o.first_read) (cured o)).ended
          (Tells-and_then points_verdict (reads_screen ∷ []) (pruned o.first_read) (cured o)
            (Plain-pruned o.first_read first) (λ elements. cured-Tells elements all second last)))
