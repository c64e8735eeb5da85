-- ===== src/Logger/Lines.antt =====
-- Which lines the logger (src/utils/logger.h) prints, and what they say of the file.
use http2_server.Prelude.{
  ◌≡◌, ◌≢◌, refl, sym, ap, ◌∙◌, none, some, List, [], ◌∷◌, ◌++◌, All, if◌then◌else◌, leb, keep_if,
  map, append_assoc, append-nil, arith, Bool-cases, inl, inr,
}
use http2_server.Prelude.Text.{Text}
use http2_server.Prelude.Int.{ℤ}
use http2_server.Logger.{LogLevel, rank, Logger, log, line_of, behind_slash, basename}

-- A message that the program logs.
pub record Message : Type 0 where
  pub level : LogLevel
  pub file : Text
  pub line : ℤ
  pub text : Text

pub log_all : Logger → List Message → Logger
unfolding log
log_all l [] = l
log_all l (m ∷ ms) = log_all (log m.level m.file m.line m.text l) ms

-- No slash.
abbrev pub IsName : Text → Type 0
IsName = All (λ c. c ≢ b'/')

behind_slash-name : (s : Text) → IsName s → behind_slash s ≡ none
unfolding behind_slash
behind_slash-name [] h = refl
behind_slash-name (c ∷ s) h = ground (arith, behind_slash-name s h.1, h.0)

behind_slash-path :
    (directory name : Text) → IsName name → behind_slash (directory ++ b'/' ∷ name) ≡ some name
unfolding behind_slash
behind_slash-path [] name h = rw (behind_slash, behind_slash-name name h) refl
behind_slash-path (c ∷ directory) name h =
    rw (behind_slash, behind_slash-path directory name h) refl

-- The base name of a path is what stands behind its last slash, and a name without a slash is its own.
basename_lem :
    (directory name : Text)
    → IsName name
    → (basename (directory ++ b'/' ∷ name) ≡ name) × (basename name ≡ name)
unfolding basename
basename_lem directory name h = (
  rw (basename, behind_slash-path directory name h) refl,
  rw (basename, behind_slash-name name h) refl,
)

log-line :
    (l : Logger) (m : Message)
    → log m.level m.file m.line m.text l ≡ record l {
      output =
          if leb (rank l.level) (rank m.level)
          then l.output ++ line_of m.level m.file m.line m.text ∷ []
          else l.output;
    }
unfolding log
log-line l m = ground arith

-- Of any messages, the logger adds the lines of exactly those that are not below its level, in their
-- order, and keeps its level.
log_all-lines :
    (l : Logger) (ms : List Message)
    → log_all l ms ≡ record l {
      output =
          l.output
          ++ map
              (λ m. line_of m.level m.file m.line m.text)
              (keep_if (λ m. leb (rank l.level) (rank m.level)) ms);
    }
unfolding log_all
log_all-lines l [] = ap (λ x. record l { output = x }) (sym (append-nil l.output))
log_all-lines l (m ∷ ms) = elim (Bool-cases (leb (rank l.level) (rank m.level))) [
  | inl e ↦
      ap (λ x. log_all x ms) (log-line l m)
      ∙ rw e (
          log_all-lines
            (record l { output = l.output ++ line_of m.level m.file m.line m.text ∷ [] }) ms
          ∙ ap (λ x. record l { output = x })
              (append_assoc l.output (line_of m.level m.file m.line m.text ∷ []) _))
  | inr e ↦ ap (λ x. log_all x ms) (log-line l m) ∙ rw e (log_all-lines l ms)
]
