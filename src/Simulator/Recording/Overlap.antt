-- ===== src/Simulator/Recording/Overlap.antt =====
-- Two calls of `startRecording` that overlap.
use simgadget.Prelude.Text.{Text}
