-- ===== src/Auth/Handlers/Replies.antt =====
-- Logins that are refused: what they tell, and how long they have to wait.
use jo_ei.Prelude.{
  none-some, ℕ, ◌+◌, ◌*◌, ◌≤◌, ◌≡◌, refl, sym, ◌∙◌, ap, inl, inr, Bool, true, false, not, ◌&&◌,
  List, Option, none, some, Option-cases, Bool-cases, some_inj, arith, if◌then◌else◌,
}
use jo_ei.Prelude.Text.{codes}
use jo_ei.Prelude.Table.{DistinctKeys}
use jo_ei.Users.{User}
use jo_ei.Users.Store.{Result, ok, err, Db, find_user, get_user}
use jo_ei.Users.Store.Commits.{get_user-ok}
use jo_ei.Auth.Limiter.{Limiter, allow, retry_after}
use jo_ei.Auth.Limiter.Waiting.{allow-retry_after}
use jo_ei.Auth.Session.{Sessions, ask, locked, same_origin, issue_session}
use jo_ei.Auth.Handlers.{
  Call, World, Reply, error_reply, LoginRequest, logged_in, after_check, login_attempt, login,
  rate_limited, new_session, session_reply,
}

abbrev limiter_of : Reply × World → Limiter
limiter_of r = r.1.limiter

abbrev retry_of : Reply × World → Option ℕ
retry_of r = r.0.retry

abbrev reply_of : Reply × World → Reply
reply_of r = r.0

-- The name has no account, or it is disabled, or the password is wrong.
abbrev pub Fails : Sessions → LoginRequest → Db → Type 0
Fails s q db =
    (u : User)
    → find_user q.username db.table ≡ some u
    → (s.check_password u.password_hash q.password && not u.disabled) ≡ false

logged_in-none :
    (s : Sessions) (q : LoginRequest) (db : Db)
    → Fails s q db
    → logged_in s q.password (ask (get_user q.username) db).0 ≡ none
unfolding logged_in
logged_in-none s q db fails = answered (get_user q.username db.table db.faults) refl
  where
    answered :
        (r : Result User × List Bool)
        → get_user q.username db.table db.faults ≡ r
        → logged_in s q.password r.0 ≡ none
    answered (err e, left) is = refl
    answered (ok u, left) is =
        rw (fails u (get_user-ok q.username db.table db.faults u left is)) refl

-- What a failing attempt answers depends on the limiter alone.
failing_attempt : Call → LoginRequest → Limiter → Reply
failing_attempt c q l =
    let a = allow q.username c.client_ip c.now l in
    if not a.0.1 then rate_limited a.0.0 else error_reply 401 (codes "invalid_credentials")

login_attempt-failing :
    (s : Sessions) (c : Call) (q : LoginRequest) (w : World)
    → Fails s q w.db
    → ((login_attempt s c q w).0 ≡ failing_attempt c q w.limiter)
      × ((login_attempt s c q w).1.limiter ≡ (allow q.username c.client_ip c.now w.limiter).1)
unfolding login_attempt after_check failing_attempt
login_attempt-failing s c q w fails =
    elim (Bool-cases (allow q.username c.client_ip c.now w.limiter).0.1) [
      | inr blocked ↦ (rw blocked refl, rw blocked refl)
      | inl go ↦
          (rw (go, logged_in-none s q w.db fails) refl, rw (go, logged_in-none s q w.db fails) refl)
    ]

abbrev unlocked_world : World → World
unlocked_world w = record w { db = (locked w.db).1 }

login_open :
    (s : Sessions) (c : Call) (q : LoginRequest) (w : World)
    → (locked w.db).0 ≡ false
    → same_origin s c.request ≡ true
    → login s c (some q) w ≡ login_attempt s c q (unlocked_world w)
unfolding login
login_open s c q w running same = rw (running, same) refl

login_cross :
    (s : Sessions) (c : Call) (q : LoginRequest) (w : World)
    → (locked w.db).0 ≡ false
    → same_origin s c.request ≡ false
    → login s c (some q) w ≡ (error_reply 403 (codes "cross_origin"), unlocked_world w)
unfolding login
login_cross s c q w running other = rw (running, other) refl

login_shut :
    (s : Sessions) (c : Call) (q : LoginRequest) (w : World)
    → (locked w.db).0 ≡ true
    → login s c (some q) w ≡ (error_reply 503 (codes "auth_not_configured"), unlocked_world w)
unfolding login
login_shut s c q w shut = rw shut refl

-- An unknown username, a disabled account and a wrong password are answered alike, and leave the
-- limiter alike: two stores in which the login fails, for whatever reason, give the same reply and
-- the same limiter, whichever statements fail, where neither is locked and the limiter and the
-- request are the same.
pub login_failures_alike :
    (s : Sessions) (c : Call) (q : LoginRequest) (w v : World)
    → w.limiter ≡ v.limiter
    → (locked w.db).0 ≡ false
    → (locked v.db).0 ≡ false
    → Fails s q w.db
    → Fails s q v.db
    → ((login s c (some q) w).0 ≡ (login s c (some q) v).0)
      × ((login s c (some q) w).1.limiter ≡ (login s c (some q) v).1.limiter)
unfolding locked
login_failures_alike s c q w v same open_w open_v fails_w fails_v =
    elim (Bool-cases (same_origin s c.request)) [
      | inr other ↦
          let ew = login_cross s c q w open_w other in
          let ev = login_cross s c q v open_v other in
          (ap reply_of ew ∙ sym (ap reply_of ev), ap limiter_of ew ∙ same ∙ sym (ap limiter_of ev))
      | inl origin ↦
          let ew = login_open s c q w open_w origin in
          let ev = login_open s c q v open_v origin in
          let (rep, lw) = login_attempt-failing s c q (unlocked_world w) fails_w in
          let (rv, lv) = login_attempt-failing s c q (unlocked_world v) fails_v in
          (
            ap reply_of ew ∙ rep ∙ ap (failing_attempt c q) same ∙ sym (ap reply_of ev ∙ rv),
            ap limiter_of ew
                ∙ lw
                ∙ ap (λ l. (allow q.username c.client_ip c.now l).1) same
                ∙ sym (ap limiter_of ev ∙ lv),
          )
    ]

new_session_retry : (s : Sessions) (c : Call) (u : User) → (new_session s c u).retry ≡ none
unfolding new_session session_reply
new_session_retry s c u =
    elim (Option-cases (issue_session s c.now c.request c.raws u.username u.token_version)) [
      | inl e ↦ rw e refl
      | inr (r, e) ↦ rw e refl
    ]

-- An attempt that the limiter admits is not answered with Retry-After.
admitted_attempt_retry :
    (s : Sessions) (c : Call) (q : LoginRequest) (w : World)
    → (allow q.username c.client_ip c.now w.limiter).0.1 ≡ true
    → (login_attempt s c q w).0.retry ≡ none
unfolding login_attempt after_check
admitted_attempt_retry s c q w go =
    elim (Option-cases (logged_in s q.password (ask (get_user q.username) w.db).0)) [
      | inl e ↦ rw (go, e) refl
      | inr (u, e) ↦ rw (go, e) (new_session_retry s c u)
    ]

login_admitted :
    (s : Sessions) (c : Call) (q : LoginRequest) (w : World)
    → (allow q.username c.client_ip c.now w.limiter).0.1 ≡ true
    → (login s c (some q) w).0.retry ≡ none
login_admitted s c q w go = elim (Bool-cases (locked w.db).0) [
  | inl shut ↦ ap retry_of (login_shut s c q w shut)
  | inr running ↦ elim (Bool-cases (same_origin s c.request)) [
    | inr other ↦ ap retry_of (login_cross s c q w running other)
    | inl same ↦
        ap retry_of (login_open s c q w running same)
        ∙ admitted_attempt_retry s c q (unlocked_world w) go
  ]
]

-- What an answer with Retry-After tells of the limiter.
login_limited :
    (s : Sessions) (c : Call) (q : LoginRequest) (w : World) (secs : ℕ)
    → (login s c (some q) w).0.retry ≡ some secs
    → (left : ℕ) × ((allow q.username c.client_ip c.now w.limiter).0 ≡ (left, false))
      × (secs ≡ retry_after left)
      × ((login s c (some q) w).1.limiter ≡ (allow q.username c.client_ip c.now w.limiter).1)
unfolding login_attempt
login_limited s c q w secs h =
    elim (Bool-cases (allow q.username c.client_ip c.now w.limiter).0.1) [
      | inl go ↦ absurd (none-some refl (sym (login_admitted s c q w go) ∙ h))
      | inr blocked ↦ elim (Bool-cases (locked w.db).0) [
        | inl shut ↦ absurd (none-some refl (sym (ap retry_of (login_shut s c q w shut)) ∙ h))
        | inr running ↦ elim (Bool-cases (same_origin s c.request)) [
          | inr other ↦
              absurd (none-some refl (sym (ap retry_of (login_cross s c q w running other)) ∙ h))
          | inl same ↦
              let left = (allow q.username c.client_ip c.now w.limiter).0.0 in
              let answer : login_attempt s c q (unlocked_world w) ≡ (
                rate_limited left,
                record (unlocked_world w) {
                  limiter = (allow q.username c.client_ip c.now w.limiter).1;
                },
              ) =
                rw blocked refl in
              let all = login_open s c q w running same ∙ answer in
              (
                left,
                ap (λ b. (left, b)) blocked,
                some_inj (sym h ∙ ap retry_of all),
                ap limiter_of all,
              )
        ]
      ]
    ]

-- A login that was refused with Retry-After is not refused for its rate again when it is repeated
-- that many seconds later or more, from the same address, with no other call of the limiter between
-- the two: whatever its password, the accounts and the statements that fail. The keys of the
-- entries are distinct.
pub login_waited :
    (s : Sessions) (c d : Call) (q p : LoginRequest) (w : World) (db : Db) (secs : ℕ)
    → DistinctKeys w.limiter.entries
    → (login s c (some q) w).0.retry ≡ some secs
    → p.username ≡ q.username
    → d.client_ip ≡ c.client_ip
    → c.now + secs * 1000000000 ≤ d.now
    → (login s d (some p) (record { db = db; limiter = (login s c (some q) w).1.limiter })).0.retry
      ≡ none
login_waited s c d q p w db secs keys h name ip wait =
    let (left, refused, rounded, kept) = login_limited s c q w secs h in
    let go =
      allow-retry_after q.username c.client_ip c.now d.now left w.limiter keys refused
        (omega (arith, wait, rounded)) in
    login_admitted s d p _ (rw (kept, name, ip) (ap (λ r. r.1) go))
