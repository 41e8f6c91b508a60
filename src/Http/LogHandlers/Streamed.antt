-- ===== src/Http/LogHandlers/Streamed.antt =====
-- What a client of `StreamBuildLogs`, of control-plane/internal/httpapi/handlers.go, gets to see.
use mesh_vpn.Store.Errors.{err, ok, Result}
use mesh_vpn.Domain.{DeploymentRecord}
use mesh_vpn.Text.{Text}
use mesh_vpn.Base.{
  List, [], ap, append_assoc, arith, drop, if◌then◌else◌, length, length-append, refl, suc, ℕ, ◌++◌,
  ◌∷◌, ◌≡◌, append-nil, ltb, true, Bool-cases, false, inl, inr, sym, ◌∙◌, Bool, Option, ◌||◌,
}
use mesh_vpn.Http.LogHandlers.{
  StreamEvent, app_chunk, build_chunk, build_complete, delta_of, is_terminal_build_status,
  offset_behind, stream_error, stream_from, LogsReply, events, may_view, stream_build_logs,
}

-- The pieces of build logs, one behind the other.
unfoldable pub shown : List StreamEvent → Text
shown [] = []
shown (build_chunk status chunk offset ∷ es) = chunk ++ shown es
shown (_ ∷ es) = shown es

-- The build logs that were read last: at the first terminal status, or before the first read that
-- fails, or at the last tick.
pub last_read : Text → List (Result DeploymentRecord) → Text
last_read logs [] = logs
last_read logs (err e ∷ reads) = logs
last_read logs (ok rec ∷ reads) =
    let rest = last_read rec.build_logs reads in
    if is_terminal_build_status rec.status then rec.build_logs else rest

-- Logs only grow: each text that is read continues the one before.
abbrev pub Grows : Text → List (Result DeploymentRecord) → Type 0
Grows logs [] = Unit
Grows logs (err e ∷ reads) = Unit
Grows logs (ok rec ∷ reads) =
    ((more : Text) × (rec.build_logs ≡ logs ++ more)) × Grows rec.build_logs reads

-- How many events of the end of a build there are.
pub completions : List StreamEvent → ℕ
completions [] = 0
completions (build_complete status offset ∷ es) = suc (completions es)
completions (_ ∷ es) = completions es

drop-append : (xs ys : Text) → drop (length xs) (xs ++ ys) ≡ ys
drop-append [] ys = refl
drop-append (x ∷ xs) ys = drop-append xs ys

shown-append : (es fs : List StreamEvent) → shown (es ++ fs) ≡ shown es ++ shown fs
unfolding shown
shown-append [] fs = refl
shown-append (build_chunk status chunk offset ∷ es) fs = simp (shown-append es fs, append_assoc)
shown-append (build_complete status offset ∷ es) fs = shown-append es fs
shown-append (app_chunk container chunk cursor reset ∷ es) fs = shown-append es fs
shown-append (stream_error text ∷ es) fs = shown-append es fs

ltb_irrefl : (n : ℕ) → ltb n n ≡ false
ltb_irrefl n = ground arith

length-grown :
    (logs : Text) (c : ℕ) (more : Text) → ltb (length logs) (length (logs ++ c ∷ more)) ≡ true
length-grown logs c more = ground (arith, length-append logs (c ∷ more))

-- A piece continues what was shown, and its offset is the length of the logs.
module _ (rec : DeploymentRecord) where
  shown-delta :
      (logs more : Text)
      → rec.build_logs ≡ logs ++ more
      → logs ++ shown (delta_of (length logs) rec) ≡ rec.build_logs
  unfolding shown
  shown-delta logs [] e = rw (e, append-nil logs, ltb_irrefl (length logs)) (append-nil logs)
  shown-delta logs (c ∷ more) e =
      rw (e, length-grown logs c more, drop-append logs (c ∷ more)) (rw append-nil refl)

  offset_behind_lem :
      (logs more : Text)
      → rec.build_logs ≡ logs ++ more
      → offset_behind (length logs) rec ≡ length rec.build_logs
  offset_behind_lem logs more e =
      ground (arith, length-append logs more, ap (λ (t : Text). length t) e)

stream_from-shown :
    (reads : List (Result DeploymentRecord)) (logs : Text)
    → Grows logs reads
    → logs ++ shown (stream_from (length logs) reads) ≡ last_read logs reads
unfolding stream_from last_read shown
stream_from-shown [] logs g = append-nil logs
stream_from-shown (err e ∷ reads) logs g = append-nil logs
stream_from-shown (ok rec ∷ reads) logs ((more, e), g) =
    elim (Bool-cases (is_terminal_build_status rec.status)) [
      | inl t ↦ rw t (sent _ ∙ append-nil _)
      | inr t ↦ rw t (
          sent _
          ∙ rw (offset_behind_lem rec logs more e) (stream_from-shown reads rec.build_logs g))
    ]
  where
    sent :
        (rest : List StreamEvent)
        → logs ++ shown (delta_of (length logs) rec ++ rest) ≡ rec.build_logs ++ shown rest
    sent rest =
        ap (λ t. logs ++ t) (shown-append (delta_of (length logs) rec) rest)
        ∙ sym (append_assoc logs _ _)
        ∙ ap (λ t. t ++ shown rest) (shown-delta rec logs more e)

-- Whether a terminal status is read before a read fails.
pub reaches_end : List (Result DeploymentRecord) → Bool
reaches_end [] = false
reaches_end (err e ∷ reads) = false
reaches_end (ok rec ∷ reads) = is_terminal_build_status rec.status || reaches_end reads

completions-delta :
    (offset : ℕ) (rec : DeploymentRecord) (es : List StreamEvent)
    → completions (delta_of offset rec ++ es) ≡ completions es
unfolding completions
completions-delta offset rec es = elim (Bool-cases (ltb offset (length rec.build_logs))) [
  | inl e ↦ rw e refl
  | inr e ↦ rw e refl
]

completions-stream_from :
    (reads : List (Result DeploymentRecord)) (offset : ℕ)
    → completions (stream_from offset reads) ≡ (if reaches_end reads then 1 else 0)
unfolding stream_from completions reaches_end
completions-stream_from [] offset = refl
completions-stream_from (err e ∷ reads) offset = refl
completions-stream_from (ok rec ∷ reads) offset =
    completions-delta offset rec _ ∙ (elim (Bool-cases (is_terminal_build_status rec.status)) [
      | inl t ↦ rw t refl
      | inr t ↦ rw t (completions-stream_from reads (offset_behind offset rec))
    ])

abbrev pub events_of : LogsReply → List StreamEvent
events_of (events es) = es
events_of _ = []

-- A user who may see a deployment, and whose logs only grow while they are read, is shown by the
-- stream exactly the logs that were read last, each byte once and in order: those at the first terminal
-- status, or before the first read that fails, or at the last tick. The end of the build is told once
-- where a terminal status was read, and else not at all.
pub stream_build_logs-shown :
    (user : Option Text) (rec : DeploymentRecord) (reads : List (Result DeploymentRecord))
    → may_view user rec ≡ true
    → Grows rec.build_logs reads
    → let es = events_of (stream_build_logs user (ok rec) reads) in
      (shown es ≡ last_read [] (ok rec ∷ reads))
      × (completions es ≡ (if reaches_end (ok rec ∷ reads) then 1 else 0))
unfolding stream_build_logs
stream_build_logs-shown user rec reads may g = rw may (
  stream_from-shown (ok rec ∷ reads) [] ((rec.build_logs, refl), g),
  completions-stream_from (ok rec ∷ reads) 0,
)
