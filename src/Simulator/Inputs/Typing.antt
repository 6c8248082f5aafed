-- ===== src/Simulator/Inputs/Typing.antt =====
-- What `typeText` lets through, with the client's own check (idb/client.ts) behind it.
use simgadget.Prelude.{
  ℕ, ◌≡◌, ◌⊎◌, refl, inl, inr, if◌then◌else◌, Bool, true, false, not, ◌&&◌, List, [], ◌∷◌, ◌++◌,
  Option, none, some, All, All-append, ap, sym, ◌∙◌, arith,
}
use simgadget.Prelude.Text.{Text}
use simgadget.Prelude.Run.{Reply, value, throws, Run, done, after, and_then, All-and_then}
use simgadget.Ax.Element.{AxKeys, RawTree}
use simgadget.Idb.Keymap.{unmapped_characters}
use simgadget.Idb.Typing.{HidEvent, sends}
use simgadget.Idb.Typing as Typing
use simgadget.Idb.Typing.Laws.{type_text-read}
use simgadget.Simulator.Calls.{
  Host, reads_gate, types, Act, asks, finds_sheet, Failure, untypeable, typing_blocked, with_client,
  or_blamed,
}
use simgadget.Simulator.Calls.Acts.{or_blamed-All, with_client-All, blamed-throws}
use simgadget.Simulator.Verbs.{Handle, World}
use simgadget.Simulator.Inputs.{
  type_text, type_mapped, type_unless, typing_blocker, strong_password_sheet, exclusive_call,
  distinct, occurs, secure_in, or_else,
}

-- What is left of a list behind the elements that were seen.
occurs-distinct :
    (d : ℕ) (seen cs : List ℕ) → occurs d (distinct seen cs) ≡ (occurs d cs && not (occurs d seen))
occurs-distinct d seen [] = refl
occurs-distinct d seen (c ∷ cs) =
    ground (arith, occurs-distinct d seen cs, occurs-distinct d (c ∷ seen) cs)

-- An act that types nothing.
abbrev pub NoTyping : Act → Type 0
NoTyping (asks (types cs) exclusive) = ⊥
NoTyping a = Unit

-- Whether a read of the screen shows a masked field that has the keyboard.
abbrev pub masked : Reply Failure (Option RawTree) → Bool
masked (value info) = secure_in info
masked (throws f) = false

-- How `typeText` goes, on a handle that is not deleted: the acts, and how it ends.
pub data Course (w : World) (cs : List ℕ) : List Act → Reply {0, 0} Failure Unit → Type 0 where
  refuses :
      (c : ℕ) (more : List ℕ)
      → ((d : ℕ) → occurs d (c ∷ more) ≡ occurs d (unmapped_characters cs))
      → Course w cs [] (throws (untypeable (c ∷ more)))
  blocks :
      (acts : List Act) (blocker : AxKeys)
      → unmapped_characters cs ≡ []
      → masked w.host.gate ≡ true
      → w.sheet ≡ value (some blocker)
      → All NoTyping acts
      → Course w cs acts (throws (typing_blocked blocker))
  goes_through :
      (before rest : List Act) (events : List HidEvent) (ended : Reply {0, 0} Failure Unit)
      → Typing.type_text cs ≡ sends events
      → (masked w.host.gate ≡ false) ⊎ (or_else none w.sheet ≡ none)
      → All NoTyping before
      → All NoTyping rest
      → (w.host.answer (types cs) ≡ value tt → ended ≡ value tt)
      → Course w cs (before ++ asks (types cs) true ∷ rest) ended

-- The read of `editingSecureField`.
abbrev gate_read : Host → Text → Reply Failure (Option RawTree) → Run Act Failure Bool
gate_read host udid reply =
    and_then (with_client host udid reads_gate false reply) λ info. done (value (secure_in info))

gate-eq :
    (host : Host) (udid : Text) (reply : Reply Failure (Option RawTree))
    → or_else false (gate_read host udid reply).ended ≡ masked reply
unfolding with_client
gate-eq host udid (value info) = refl
gate-eq host udid (throws error) =
    let (f, thrown) = blamed-throws {A = Option RawTree} host udid error in rw (thrown) refl

gate-NoTyping :
    (host : Host) (udid : Text) (reply : Reply Failure (Option RawTree))
    → All NoTyping (gate_read host udid reply).acts
gate-NoTyping host udid reply =
    All-and_then NoTyping _ _ _ (with_client-All NoTyping host udid tt reads_gate false reply tt)
      (λ info e. tt)

distinct-eq-nil : (cs : List ℕ) → distinct [] cs ≡ [] → cs ≡ []
distinct-eq-nil [] e = refl
distinct-eq-nil (c ∷ cs) e = absurd (ground arith)

module _ (w : World) (h : Handle) (cs : List ℕ) where
  sent-Course :
      (before : List Act)
      → unmapped_characters cs ≡ []
      → (masked w.host.gate ≡ false) ⊎ (or_else none w.sheet ≡ none)
      → All NoTyping before
      → let r = exclusive_call w h (types cs) in Course w cs (before ++ r.acts) r.ended
  unfolding with_client
  sent-Course before mapped free none_typed =
      let (events, sent, read) = type_text-read cs mapped in
      goes_through before (or_blamed w.host h.udid (w.host.answer (types cs))).acts events _ sent
        free none_typed (or_blamed-All NoTyping w.host h.udid tt (w.host.answer (types cs)))
        (λ e. rw (e) refl)

  sheet-Course :
      (acts : List Act) (found : Option AxKeys)
      → unmapped_characters cs ≡ []
      → masked w.host.gate ≡ true
      → or_else none w.sheet ≡ found
      → (found ≡ none) ⊎ (w.sheet ≡ value found)
      → All NoTyping acts
      → let r = type_unless w h cs found in Course w cs (acts ++ r.acts) r.ended
  sheet-Course acts none mapped editing e which none_typed =
      sent-Course acts mapped (inr e) none_typed
  sheet-Course acts (some blocker) mapped editing e (inl bad) none_typed = absurd (ground arith)
  sheet-Course acts (some blocker) mapped editing e (inr up) none_typed =
      blocks (acts ++ []) blocker mapped editing up (All-append NoTyping acts [] none_typed tt)

  sheet_cases :
      (reply : Reply Failure (Option AxKeys))
      → (or_else none reply ≡ none) ⊎ (reply ≡ value (or_else none reply))
  sheet_cases (value found) = inr refl
  sheet_cases (throws f) = inl refl

  gated-Course :
      (acts : List Act) (editing : Bool)
      → unmapped_characters cs ≡ []
      → masked w.host.gate ≡ editing
      → All NoTyping acts
      → let r =
          and_then
            (after acts (if editing then strong_password_sheet w else done (value none)))
            (type_unless w h cs) in
        Course w cs r.acts r.ended
  gated-Course acts false mapped e none_typed =
      sent-Course (acts ++ []) mapped (inl e) (All-append NoTyping acts [] none_typed tt)
  gated-Course acts true mapped e none_typed =
      sheet-Course (acts ++ finds_sheet ∷ []) (or_else none w.sheet) mapped e refl
        (sheet_cases w.sheet) (All-append NoTyping acts (finds_sheet ∷ []) none_typed (tt, tt))

  mapped-Course :
      unmapped_characters cs ≡ []
      → let r = and_then (typing_blocker w h) (type_unless w h cs) in Course w cs r.acts r.ended
  mapped-Course mapped =
      rw (gate-eq w.host h.udid w.host.gate)
        (gated-Course _ (masked w.host.gate) mapped refl (gate-NoTyping w.host h.udid w.host.gate))

  checked-Course :
      (d : List ℕ)
      → distinct [] (unmapped_characters cs) ≡ d
      → let r = type_mapped w h cs d in Course w cs r.acts r.ended
  checked-Course [] e = mapped-Course (distinct-eq-nil _ e)
  checked-Course (c ∷ more) e =
      refuses c more
        λ d. ap (occurs d) (sym e) ∙ occurs-distinct d [] (unmapped_characters cs) ∙ ground arith

-- What `typeText` does on a handle that is not deleted. Where characters have no key, it does nothing
-- and throws them all, and no others. Where a read shows a masked field being edited and the sheet of
-- strong passwords is found up, it throws the sheet's button and types nothing. Otherwise it asks
-- the client to type the text, once and exclusively; the client never refuses it, and where the
-- client succeeds so does the call.
pub type_text-Course :
    (w : World) (h : Handle) (cs : List ℕ)
    → h.deleted ≡ false
    → Course w cs (type_text w h cs).acts (type_text w h cs).ended
unfolding type_text
type_text-Course w h cs live = rw (live) (checked-Course w h cs _ refl)
