-- ===== src/Sesman/Start/Records.antt =====
-- What a start records of the processes that it spawns.
use mathlib.Core.List.{append-nil, append_assoc}
use cheirizo.Prelude.{
  Option, some, List, [], ◌∷◌, ◌++◌, ◌≡◌, refl, sym, ◌∙◌, inl, inr, Bool-cases, Option-cases,
}
use cheirizo.Sesman.State.{SesmanConfig, ComponentState, SessionState}
use cheirizo.Sesman.Start.{Start, wait_error, start_components, wait_until_ready, pushed}

-- Whatever becomes of a start, each process that it has spawned is on record in the state in
-- memory, in the order of the spawns, behind what was there.
pub start_components-records :
    (config : SesmanConfig) (starts : List Start) (s : SessionState)
    (registry : Option SessionState) (running : List ComponentState)
    → let r = start_components config s registry running starts in
      (spawned : List ComponentState) × (r.running ≡ running ++ spawned)
      × (r.state.components ≡ s.components ++ spawned)
unfolding start_components
start_components-records config [] s registry running =
    ([], sym (append-nil running), sym (append-nil s.components))
start_components-records config (start ∷ starts) s registry running =
    elim (Option-cases start.spawned) [
      | inl absent ↦ rw absent ([], sym (append-nil running), sym (append-nil s.components))
      | inr (c, there) ↦
          let s' = pushed s c start.updated_at in
          let (spawned, e, f) =
            start_components-records config starts s' (some s') (running ++ c ∷ []) in
          elim (Bool-cases start.written) [
            | inr unwritten ↦ (c ∷ [], rw (there, unwritten) refl, rw (there, unwritten) refl)
            | inl written ↦
                let waited = wait_error (
                  wait_until_ready config start.component s' start.began start.looks start.clock) in
                elim (Option-cases waited) [
                  | inr (x, bad) ↦
                      (c ∷ [], rw (there, written, bad) refl, rw (there, written, bad) refl)
                  | inl good ↦ (
                    c ∷ spawned,
                    rw (there, written, good) (e ∙ append_assoc running (c ∷ []) spawned),
                    rw (there, written, good) (f ∙ append_assoc s.components (c ∷ []) spawned),
                  )
                ]
          ]
    ]
