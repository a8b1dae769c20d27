-- ===== src/Daemon/Waiting.antt =====
-- The wait for the temporary unit in examples/systemd/supervisor/connection/listener.go, on a clock.
use boilerplate_go_be.Base.{
  signed64, signed64, seconds, second, ltb→lt, ltb, true, ℕ, zero, suc, ◌+◌, ◌-◌, ◌*◌, ◌^◌, ◌%◌,
  ◌≤◌, ◌<◌, ℤ, pos, negsuc, ◌≡◌, refl, arith, Bool-cases, inl, inr, List, [], trim_space, fields,
  split_on, trim_prefix_text, ◌∷◌, Runes,
}
use boilerplate_go_be.Runtime.{ret}
use boilerplate_go_be.Daemon.{
  Host, is_after, ended, wait_active, start_temporary, serve, serve_line, handle, restart_parts,
  restart_main, restart_words, timeout_of, command, stop_unit, close_after,
}

-- Time passes in a sleep, and never goes back.
pub record Clock (H : Host) : Type 0 where
  pub asked : (t : Runes) (s : H.State) → H.now s ≤ H.now (H.is_active t s).1
  pub slept : (n : ℕ) (s : H.State) → H.now s + n ≤ H.now (H.sleep n s)

-- The longest duration of an int64, and more seconds than it has.
abbrev pub longest : ℕ
longest = 2 ^ 63 - 1

signed64-late : (now from m : ℕ) → from + longest < now → is_after now from (signed64 m) ≡ true
unfolding is_after
signed64-late now from m late = elim (Bool-cases (ltb m (2 ^ 63))) [
  | inl fits ↦ ground (arith, ltb→lt m (2 ^ 63) fits)
  | inr over ↦ ground arith
]

-- No duration that the loop waits for is longer than the longest.
seconds-late :
    (now from : ℕ) (timeout : ℤ) → from + longest < now → is_after now from (seconds timeout) ≡ true
unfolding seconds
seconds-late now from (pos n) late = signed64-late now from (n * second % 2 ^ 64) late
seconds-late now from (negsuc n) late =
    signed64-late now from ((2 ^ 64 - suc n * second % 2 ^ 64) % 2 ^ 64) late

module _ (H : Host) (c : Clock H) where
  -- Rounds of a second each, from the time `now` on.
  wait_active-ended :
      (fuel from : ℕ) (timeout : ℤ) (tmp : Runes) (s : H.State)
      → from + longest < H.now s + fuel * second
      → (wait_active H (suc fuel) from (seconds timeout) tmp s).0 ≡ ret ended
  unfolding wait_active
  wait_active-ended zero from timeout tmp s enough =
      ground (arith, c.asked tmp s, seconds-late (H.now (H.is_active tmp s).1) from timeout)
  wait_active-ended (suc fuel) from timeout tmp s enough =
      let s1 = (H.is_active tmp s).1 in
      ground (
        arith,
        c.asked tmp s,
        c.slept second s1,
        wait_active-ended fuel from timeout tmp (H.sleep second s1),
      )

  start_temporary-ended :
      (fuel : ℕ) (timeout : ℤ) (parts : List Runes) (s : H.State)
      → longest < fuel * second
      → (start_temporary H (suc fuel) timeout parts s).0 ≡ ret ended
  unfolding start_temporary
  start_temporary-ended fuel timeout [] s enough = refl
  start_temporary-ended fuel timeout (part ∷ _) s enough =
      let s1 = (H.systemctl "start" (trim_space part) s).1 in
      ground (arith, wait_active-ended fuel (H.now s1) timeout (trim_space part) s1)

  restart_parts-ended :
      (fuel : ℕ) (timeout : ℤ) (parts : List Runes) (s : H.State)
      → longest < fuel * second
      → (restart_parts H (suc fuel) timeout parts s).0 ≡ ret ended
  unfolding restart_parts restart_main
  restart_parts-ended fuel timeout [] s enough = refl
  restart_parts-ended fuel timeout (part ∷ parts) s enough =
      ground (arith, start_temporary-ended fuel timeout parts s enough)

  restart_words-ended :
      (fuel : ℕ) (words : List Runes) (s : H.State)
      → longest < fuel * second
      → (restart_words H (suc fuel) words s).0 ≡ ret ended
  unfolding restart_words
  restart_words-ended fuel [] s enough = refl
  restart_words-ended fuel (units ∷ rest) s enough =
      restart_parts-ended fuel (timeout_of H rest) (split_on b',' units) s enough

  command-ended :
      (fuel : ℕ) (line : Runes) (words : List Runes) (s : H.State)
      → longest < fuel * second
      → (command H (suc fuel) line words s).0 ≡ ret ended
  unfolding command stop_unit
  command-ended fuel line [] s enough = refl
  command-ended fuel line (name ∷ _) s enough =
      ground (
        arith,
        restart_words-ended fuel (fields (trim_space (trim_prefix_text line name))) s enough,
      )

  serve-ended :
      (fuel : ℕ) (s : H.State) → longest < fuel * second → (serve H (suc fuel) s).0 ≡ ret ended
  unfolding serve serve_line
  serve-ended fuel s enough =
      let got = H.read_line s in
      ground
        (arith, command-ended fuel (trim_space got.0.0) (fields (trim_space got.0.0)) got.1 enough)

  -- On a clock that a sleep moves on and that never goes back, the handler of a connection ends, whatever
  -- the line says, the commands answer and the timeout is: the rounds of the wait for the temporary unit,
  -- with more seconds than the longest duration has, are enough for any timeout.
  pub handle-ended :
      (fuel : ℕ) (s : H.State) → longest < fuel * second → (handle H (suc fuel) s).0 ≡ ret ended
  unfolding handle close_after
  handle-ended fuel s enough = ground (arith, serve-ended fuel s enough)
