-- ===== src/Logging/Columns.antt =====
-- The lines of pkg/logger/log.handler.go as a reader of the log takes them apart.
use boilerplate_go_be.Base.{
  show_fuel, ℕ, zero, suc, String, Bool, true, false, Option, List, [], ◌∷◌, ◌++◌, ◌≡◌, refl, sym,
  ap, arith, map, Runes, Lacks, codes, codes-append, show_nat, ◌==◌, if◌then◌else◌, ltb, Bool-cases,
  inl, inr, subst, All-append, digit, str_append, show_fuel, ◌/◌, ◌%◌,
}
use mathlib.Core.List.{append-nil, append_assoc}
use boilerplate_go_be.Logger.{
  Level, debug, info, warn, error, fatal, Log, to_slog, label_from_slog, enabled,
}
use boilerplate_go_be.Platform.{Platform}
use boilerplate_go_be.World.{Handler}
use boilerplate_go_be.Logging.Lines.{
  LogRecord, request_ids, caller, pipe, log_line, Sink, sinks, handle_record, emit, emitted,
}

-- A reader of the log: the text up to the first six pipes, and the rest without the end of the line.
unfoldable pub split_first : ℕ → Runes → Runes → List Runes
split_first zero w s = (w ++ s) ∷ []
split_first (suc n) w [] = w ∷ []
split_first (suc n) w (c ∷ s) = elim (c == pipe) [
  | true ↦ w ∷ split_first n [] s
  | false ↦ split_first (suc n) (w ++ c ∷ []) s
]

unfoldable pub chomp : Runes → Runes
chomp [] = []
chomp (c ∷ []) = []
chomp (c ∷ d ∷ s) = c ∷ chomp (d ∷ s)

unfoldable pub columns : Runes → List Runes
unfolding split_first chomp
columns text = split_first 6 [] (chomp text)

chomp-line : (s : Runes) → chomp (s ++ b'\n' ∷ []) ≡ s
unfolding chomp
chomp-line [] = refl
chomp-line (c ∷ []) = refl
chomp-line (c ∷ d ∷ s) = ap (λ t. c ∷ t) (chomp-line (d ∷ s))

split_first-field :
    (n : ℕ) (w v s : Runes)
    → Lacks pipe v
    → split_first (suc n) w (v ++ pipe ∷ s) ≡ (w ++ v) ∷ split_first n [] s
unfolding split_first
split_first-field n w [] s h = ap (λ u. u ∷ split_first n [] s) (sym (append-nil w))
split_first-field n w (c ∷ v) s h =
    ground (arith, split_first-field n (w ++ c ∷ []) v s h.1, append_assoc w (c ∷ []) v)

Lacks-label : (level : Level) → Lacks pipe (codes (label_from_slog (to_slog level)))
unfolding label_from_slog to_slog
Lacks-label debug = (refl, (refl, (refl, (refl, (refl, tt)))))
Lacks-label info = (refl, (refl, (refl, (refl, tt))))
Lacks-label warn = (refl, (refl, (refl, (refl, tt))))
Lacks-label error = (refl, (refl, (refl, (refl, (refl, tt)))))
Lacks-label fatal = (refl, (refl, (refl, (refl, (refl, tt)))))

Lacks-if :
    (b : Bool) (s t : String)
    → Lacks pipe (codes s)
    → Lacks pipe (codes t)
    → Lacks pipe (codes (if b then s else t))
Lacks-if true s t hs ht = hs
Lacks-if false s t hs ht = ht

Lacks-digit : (d : ℕ) → Lacks pipe (codes (digit d))
Lacks-digit d =
    let one : ((b'0' == pipe) ≡ false) × Unit {0} = (refl, tt) in
    Lacks-if (d == 0) _ _ one (
      Lacks-if (d == 1) _ _ one (
        Lacks-if (d == 2) _ _ one (
          Lacks-if (d == 3) _ _ one (
            Lacks-if (d == 4) _ _ one (
              Lacks-if (d == 5) _ _ one (
                Lacks-if (d == 6) _ _ one
                  (Lacks-if (d == 7) _ _ one (Lacks-if (d == 8) _ _ one one))))))))

Lacks-show_fuel : (f n : ℕ) → Lacks pipe (codes (show_fuel f n))
unfolding show_fuel
Lacks-show_fuel zero n = tt
Lacks-show_fuel (suc f) n = by_size (ltb n 10) (Lacks-show_fuel f (n / 10))
  where
    by_size :
        (b : Bool)
        → Lacks pipe (codes (show_fuel f (n / 10)))
        → Lacks pipe (
            codes (elim b [
              | true ↦ digit n
              | false ↦ str_append (show_fuel f (n / 10)) (digit (n % 10))
            ]))
    by_size true rest = Lacks-digit n
    by_size false rest =
        subst (Lacks pipe) (sym (codes-append (show_fuel f (n / 10)) (digit (n % 10)))) (
          All-append _ (codes (show_fuel f (n / 10))) (codes (digit (n % 10))) rest
            (Lacks-digit (n % 10)))

Lacks-show_nat : (n : ℕ) → Lacks pipe (codes (show_nat n))
unfolding show_nat
Lacks-show_nat n = Lacks-show_fuel (suc n) n

map-map_eq :
    {A B C : Type 0} (f : A → B) (g : B → C) (h : A → C) (xs : List A)
    → ((a : A) → g (f a) ≡ h a)
    → map g (map f xs) ≡ map h xs
map-map_eq f g h [] e = refl
map-map_eq f g h (x ∷ xs) e = ground (arith, e x, map-map_eq f g h xs e)

-- The columns of a line whose time, identifiers and file have no pipe are its parts, whatever the message.
log_line-columns :
    (r : LogRecord)
    → Lacks pipe r.time
    → Lacks pipe (request_ids r.attrs ([], [])).0
    → Lacks pipe (request_ids r.attrs ([], [])).1
    → Lacks pipe (caller r.frame).0
    → columns (log_line r ++ b'\n' ∷ [])
      ≡ r.time
        ∷ (request_ids r.attrs ([], [])).0
        ∷ (request_ids r.attrs ([], [])).1
        ∷ codes (label_from_slog (to_slog r.level))
        ∷ (caller r.frame).0
        ∷ codes (show_nat (caller r.frame).1)
        ∷ r.message
        ∷ []
unfolding columns log_line
log_line-columns r time parent child file =
    rw
      (
        chomp-line (log_line r),
        split_first-field 5 [] _ _ time,
        split_first-field 4 [] _ _ parent,
        split_first-field 3 [] _ _ child,
        split_first-field 2 [] _ _ (Lacks-label r.level),
        split_first-field 1 [] _ _ file,
        split_first-field 0 [] _ _ (Lacks-show_nat (caller r.frame).1),
      )
      refl

module _ {P : Platform} where
  -- At a level that the handler lets through, `emit` writes one line to each destination of the level, in
  -- their order. Where the time, the two identifiers of the logger and the name of the file have no pipe,
  -- the seven columns of every such line are the time, the identifiers, the label, the file, the line number
  -- and the message, whatever the message has in it. At a level below the handler's it writes nothing.
  pub emit-columns :
      (h : Handler P) (also_stdout : Bool) (l : Log) (level : Level) (message time : Runes)
      (frame : Option (Runes × ℕ))
      → Lacks pipe time
      → Lacks pipe (codes l.parent_id)
      → Lacks pipe (codes l.child_id)
      → Lacks pipe (caller frame).0
      → map (λ (s, text). (s, columns text)) (emit h also_stdout l level message time frame) ≡ (
          if enabled l.level (to_slog level)
          then map {B = Sink P × List Runes}
              (λ s. (
                s,
                time
                    ∷ codes l.parent_id
                    ∷ codes l.child_id
                    ∷ codes (label_from_slog (to_slog level))
                    ∷ (caller frame).0
                    ∷ codes (show_nat (caller frame).1)
                    ∷ message
                    ∷ [],
              ))
              (sinks h also_stdout level)
          else [])
  unfolding emit handle_record request_ids
  emit-columns h also_stdout l level message time frame ht hp hc hf =
      elim (Bool-cases (enabled l.level (to_slog level))) [
        | inr low ↦ rw (low) refl
        | inl high ↦ rw (high) (
            map-map_eq _ _ _ (sinks h also_stdout level) (λ s.
              ap (λ c. (s, c)) (log_line-columns (emitted l level message time frame) ht hp hc hf)))
      ]
