-- ===== src/Gate/Effects.antt =====
-- The calls that the gate makes to its collaborators. Each may depend on all calls before it, so an
-- environment is a function of the history; a call is recorded when it is made, a workspace when it
-- has been created, and its deletion when it is tried and again when it is verified.
use media_bridge.Base.{ℕ, String, Option, List, ◌∷◌}
use media_bridge.Base.{Result, ok, err}
use media_bridge.Contracts.{MediaType, MediaPart, Profile}

abbrev pub Bytes : Type 0
Bytes = List ℕ

pub data Event : Type 0 where
  acquire_called : MediaPart → String → Event
  workspace_opened : Event
  file_written : String → Event
  pdf_rendered : Event
  ocr_called : String → Event
  vision_called : String → Event
  cleanup_called : Event
  cleanup_verified : Event

abbrev pub History : Type 0
History = List Event

-- `GateFailureError`, `CleanupError`, every other `Exception`, and what is no `Exception`, such as the
-- `CancelledError` of a request that is cancelled while it waits for a collaborator.
pub data Raised : Type 0 where
  gate_failure : String → String → Raised
  cleanup_error other interrupted : Raised

abbrev pub Call : Type 0 → Type 0
Call A = History → Result Raised A × History

infixl 5 ◌>>=◌ ◌>>◌
abbrev pub ◌>>=◌ : {A B : Type 0} → Call A → (A → Call B) → Call B
◌>>=◌ m f h = let (r, h') = m h in elim r [ ok a ↦ f a h' | err e ↦ (err e, h') ]

abbrev pub ◌>>◌ : {A B : Type 0} → Call A → Call B → Call B
m >> k = m >>= λ _. k

abbrev pub pure : {A : Type 0} → A → Call A
pure a h = (ok a, h)

abbrev pub raise : {A : Type 0} → Raised → Call A
raise e h = (err e, h)

-- What `except Exception: raise e from None` makes of an exception.
abbrev pub replaced : Raised → Raised → Raised
replaced e (gate_failure _ _) = e
replaced e cleanup_error = e
replaced e other = e
replaced e interrupted = interrupted

-- `try: m except Exception: raise e from None`
abbrev pub or_fail : {A : Type 0} → Call A → Raised → Call A
or_fail m e h = let (r, h') = m h in elim r [ ok a ↦ (ok a, h') | err x ↦ (err (replaced e x), h') ]

-- What `except CleanupError: raise e from None` makes of an exception.
abbrev pub replaced_cleanup : Raised → Raised → Raised
replaced_cleanup e (gate_failure code message) = gate_failure code message
replaced_cleanup e cleanup_error = e
replaced_cleanup e other = other
replaced_cleanup e interrupted = interrupted

-- `try: m except CleanupError: raise e from None`
abbrev pub or_fail_cleanup : {A : Type 0} → Call A → Raised → Call A
or_fail_cleanup m e h =
    let (r, h') = m h in elim r [ ok a ↦ (ok a, h') | err x ↦ (err (replaced_cleanup e x), h') ]

-- An outcome as a value, with the `Exception` that was raised; what is none goes on.
abbrev pub caught : {A : Type 0} → Result Raised A → Result Raised (Result Raised A)
caught (ok a) = ok (ok a)
caught (err (gate_failure code message)) = ok (err (gate_failure code message))
caught (err cleanup_error) = ok (err cleanup_error)
caught (err other) = ok (err other)
caught (err interrupted) = err interrupted

-- `try: m` with a handler of every `Exception`.
abbrev pub attempt : {A : Type 0} → Call A → Call (Result Raised A)
attempt m h = let (r, h') = m h in (caught r, h')

-- A collaborator's call: recorded, then answered.
abbrev pub call : {A : Type 0} → Event → (History → Result Raised A) → Call A
call event answer h = (answer h, event ∷ h)

pub record Acquired : Type 0 where
  pub content : Bytes
  pub media_type : MediaType
  pub mime_type : String
  pub filename : Option String
  pub forbidden_locators : List String

pub record Page : Type 0 where
  pub page_number : ℕ
  pub content : Bytes
  pub mime_type : String
  pub filename : String

pub data BackendStatus : Type 0 where
  success no_text failure : BackendStatus

pub record OcrResult : Type 0 where
  pub status : BackendStatus
  pub text : Option String

pub record VisionResult : Type 0 where
  pub status : BackendStatus
  pub description : Option String

-- The collaborators of `PreRequestGate`.
pub record Services : Type 0 where
  pub acquire : MediaPart → String → History → Result Raised Acquired
  pub open_workspace : History → Result Raised (Unit {0})
  pub write_bytes : String → Bytes → History → Result Raised (Unit {0})
  pub render : Bytes → History → Result Raised (List Page)
  pub ocr : Bytes → String → Option String → History → Result Raised OcrResult
  pub describe : Bytes → String → Profile → History → Result Raised VisionResult
  pub cleanup : History → Result Raised (Unit {0})
  pub sanitize : String → List String → Result Raised String

-- `self._workspace_factory()`: what is recorded is a workspace that exists.
abbrev pub create_workspace : Services → Call (Unit {0})
create_workspace s h = elim (s.open_workspace h) [
  | ok _ ↦ (ok tt, workspace_opened ∷ h)
  | err e ↦ (err e, h)
]

-- `workspace.cleanup()`: the deletion is tried, and on success it has been verified.
abbrev pub clean_workspace : Services → Call (Unit {0})
clean_workspace s h = elim (s.cleanup h) [
  | ok _ ↦ (ok tt, cleanup_verified ∷ cleanup_called ∷ h)
  | err e ↦ (err e, cleanup_called ∷ h)
]
