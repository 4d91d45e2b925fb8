-- ===== src/Os/Send.antt =====
-- The loop that both sides send a frame with: C_chat_lib/client_lib/src/chat_client.c
-- (`client_send_payload`) and C_chat_lib/server_lib/src/chat_server.c (`_internal_send_frame`).
use mogakso.Common.{
  if◌then◌else◌, length, take, drop, length-drop, take-take-drop, ℤ, pos, negsuc, eqb_ℤ, Run, done,
  out_of_fuel, ℕ, zero, suc, ◌+◌, ◌≤◌, ◌≡◌, refl, sym, ap, ◌∙◌, ◌≢◌, ◌↔◌, true, false, List, [],
  ◌∷◌, ◌++◌, append-nil, append_assoc, arith,
}
use mogakso.Os.{Event, sent, error_callback, error_stderr, SameOpen, Os, Sane}

pub data SendOutcome : Type 0 where
  complete peer_closed : SendOutcome
  send_failed : (code : ℕ) → SendOutcome

-- `while (sent_len < frame_len)`: `rest` are the bytes of the frame from `sent_len` on. A round that
-- goes on takes a byte at least, so that one round for each byte is enough.
unfoldable pub send_loop : Os → ℕ → ℤ → List ℕ → List Event → Run (SendOutcome × List Event)
send_loop os fuel fd [] log = done (complete, log)
send_loop os zero fd (b ∷ bs) log = out_of_fuel
send_loop os (suc fuel) fd (b ∷ bs) log = elim (os.send log fd (b ∷ bs)) [
  | negsuc m ↦
      let log' = sent fd (b ∷ bs) (negsuc m) ∷ log in done (send_failed (os.errno log'), log')
  | pos n ↦ elim n [
    | zero ↦ done (peer_closed, sent fd (b ∷ bs) (pos 0) ∷ log)
    | suc m ↦ send_loop os fuel fd (drop m bs) (sent fd (b ∷ bs) (pos (suc m)) ∷ log)
  ]
]

-- The bytes that the system has taken for a descriptor, in order.
abbrev pub taken : ℤ → Event → List ℕ
taken fd (sent f offered (pos n)) = if eqb_ℤ f fd then take n offered else []
taken fd _ = []

abbrev pub stream : ℤ → List Event → List ℕ
stream fd [] = []
stream fd (e ∷ log) = stream fd log ++ taken fd e

eqb_refl : (a : ℤ) → eqb_ℤ a a ≡ true
eqb_refl (pos n) = ground arith
eqb_refl (negsuc n) = ground arith

-- How often an error was reported.
abbrev pub is_report : Event → ℕ
is_report (error_stderr _) = 1
is_report (error_callback _) = 1
is_report _ = 0

abbrev pub reports : List Event → ℕ
reports [] = 0
reports (e ∷ log) = is_report e + reports log

-- What a run of the loop leaves: the peer was given a prefix of the frame, all of it if the loop
-- says so, and no other descriptor was written to.
pub record Sends (fd : ℤ) (frame : List ℕ) (log : List Event) (r : Run (SendOutcome × List Event))
    : Type 0 where
  pub outcome : SendOutcome
  pub log' : List Event
  pub count : ℕ
  pub ends : r ≡ done (outcome, log')
  pub prefix : stream fd log' ≡ stream fd log ++ take count frame
  pub within : count ≤ length frame
  pub all_sent : (outcome ≡ complete) ↔ (count ≡ length frame)
  pub others : (g : ℤ) → eqb_ℤ fd g ≡ false → stream g log' ≡ stream g log
  pub quiet : reports log' ≡ reports log
  pub same_open : SameOpen log log'

-- A round that is over, with nothing taken.
stopped :
    (fd : ℤ) (b : ℕ) (bs : List ℕ) (log : List Event) (e : Event) (o : SendOutcome)
    → o ≢ complete
    → ((g : ℤ) → taken g e ≡ [])
    → is_report e ≡ 0
    → SameOpen log (e ∷ log)
    → Sends fd (b ∷ bs) log (done (o, e ∷ log))
stopped fd b bs log e o ne nothing silent same = record {
  same_open = same;
  quiet = omega arith;
  outcome = o;
  log' = e ∷ log;
  count = 0;
  ends = refl;
  prefix = ap (◌++◌ (stream fd log)) (nothing fd);
  within = omega arith;
  all_sent = (λ c. absurd (ne c), λ c. absurd (omega arith));
  others = λ g apart. ap (◌++◌ (stream g log)) (nothing g) ∙ append-nil (stream g log);
}

after_send :
    (os : Os) (fuel : ℕ) (fd : ℤ) (b : ℕ) (bs : List ℕ) (log : List Event) (answer : ℤ)
    → os.send log fd (b ∷ bs) ≡ answer
    → ((m : ℕ) (log' : List Event)
        → Sends fd (drop m bs) log' (send_loop os fuel fd (drop m bs) log'))
    → ((n : ℕ) → os.send log fd (b ∷ bs) ≡ pos n → n ≤ length (b ∷ bs))
    → Sends fd (b ∷ bs) log (send_loop os (suc fuel) fd (b ∷ bs) log)
unfolding send_loop
after_send os fuel fd b bs log (negsuc m) e go le =
    rw (e, send_loop) (stopped fd b bs log _ _ (λ c. cc) (λ g. refl) refl (λ g. refl))
after_send os fuel fd b bs log (pos zero) e go le =
    rw (e, send_loop) (stopped fd b bs log _ _ (λ c. cc) (λ g. ground arith) refl (λ g. refl))
after_send os fuel fd b bs log (pos (suc m)) e go le =
    rw (e, send_loop)
      (record {
        outcome = r.outcome;
        log' = r.log';
        count = suc m + r.count;
        ends = r.ends;
        quiet = r.quiet ∙ omega arith;
        same_open = r.same_open;
        prefix =
            r.prefix
            ∙ ap (λ xs. xs ++ take r.count (drop m bs))
                (ap (λ t. stream fd log ++ (if t then b ∷ take m bs else [])) (eqb_refl fd))
            ∙ append_assoc (stream fd log) (b ∷ take m bs) (take r.count (drop m bs))
            ∙ ap (◌++◌ (stream fd log)) (take-take-drop (suc m) r.count (b ∷ bs));
        within = omega (arith, r.within, length-drop m bs, le (suc m) e);
        all_sent = (
          λ c. omega (arith, r.all_sent.0 c, length-drop m bs, le (suc m) e),
          λ c. r.all_sent.1 (omega (arith, length-drop m bs, le (suc m) e)),
        );
        others = λ g apart.
            r.others g apart
            ∙ ap (λ t. stream g log ++ (if t then b ∷ take m bs else [])) apart
            ∙ append-nil (stream g log);
      })
  where
    r :
        Sends fd
          (drop m bs)
          (sent fd (b ∷ bs) (pos (suc m)) ∷ log)
          (send_loop os fuel fd (drop m bs) (sent fd (b ∷ bs) (pos (suc m)) ∷ log))
    r = go m (sent fd (b ∷ bs) (pos (suc m)) ∷ log)

-- With one round for each byte, the loop ends without a fault: it has given the peer a prefix of the
-- bytes, all of them just when it says that it is complete, and has written to nobody else.
pub send_loop-Sends :
    (os : Os) (fuel : ℕ) (fd : ℤ) (rest : List ℕ) (log : List Event)
    → Sane os
    → length rest ≤ fuel
    → Sends fd rest log (send_loop os fuel fd rest log)
unfolding send_loop
send_loop-Sends os fuel fd [] log sane h = record {
  outcome = complete;
  log' = log;
  count = 0;
  ends = refl;
  prefix = sym (append-nil (stream fd log));
  within = omega arith;
  all_sent = (λ e. refl, λ e. refl);
  others = λ g ne. refl;
  quiet = refl;
  same_open = λ g. refl;
}
send_loop-Sends os zero fd (b ∷ bs) log sane h = absurd (omega arith)
send_loop-Sends os (suc fuel) fd (b ∷ bs) log sane h =
    after_send os fuel fd b bs log (os.send log fd (b ∷ bs)) refl
      (λ m log'. send_loop-Sends os fuel fd (drop m bs) log' sane (omega (arith, length-drop m bs)))
      (sane.send_le log fd (b ∷ bs))
