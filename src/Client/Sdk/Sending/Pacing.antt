-- ===== src/Client/Sdk/Sending/Pacing.antt =====
-- client/src/sdk_http.rs, SdkHttpClient::send: the exchanges of one client, however they interleave.
use moenotes_api.Prelude.{
  List, [], ap, arith, length, length-append, refl, subst, ℕ, ◌++◌, ◌+◌, ◌∷◌, ◌≡◌, ◌≤◌,
}
use moenotes_api.Client.Sdk.Base.{ok}
use moenotes_api.Client.Sdk.Request.{SdkHttpOptions}
use moenotes_api.Client.Sdk.Sending.{
  Exchange, Sender, begin_send, end_send, sent, start_request, waiting,
}

-- The client's sender, its exchanges that hold a permit, and the times at which its requests
-- started, the last one first.
pub record System : Type 0 where
  pub sender : Sender
  pub running : List Exchange
  pub starts : List ℕ

abbrev pub started : ℕ → System
started now = record { sender = record { permits = 1; next = now }; running = []; starts = [] }

pub data Step (options : SdkHttpOptions) : System → System → Type 0 where
  begins :
      (y : System) (s : Sender)
      → begin_send y.sender ≡ ok s
      → Step options y (record y { sender = s; running = waiting ∷ y.running })
  starts :
      (y : System) (now : ℕ) (front back : List Exchange)
      → y.running ≡ front ++ waiting ∷ back
      → y.sender.next ≤ now
      → Step options y (record y {
        sender = start_request options now y.sender;
        running = front ++ sent ∷ back;
        starts = now ∷ y.starts;
      })
  ends :
      (y : System) (x : Exchange) (front back : List Exchange)
      → y.running ≡ front ++ x ∷ back
      → Step options y (record y { sender = end_send y.sender; running = front ++ back })

pub data Reach (options : SdkHttpOptions) (now : ℕ) : System → Type 0 where
  start : Reach options now (started now)
  and_then : {y z : System} → Reach options now y → Step options y z → Reach options now z

-- Every time is at least `interval` behind the one before it.
abbrev pub Spaced : ℕ → List ℕ → Type 0
Spaced interval [] = Unit
Spaced interval (t ∷ []) = Unit
Spaced interval (t ∷ t' ∷ times) = (t' + interval ≤ t) × Spaced interval (t' ∷ times)

abbrev pub LastBefore : ℕ → ℕ → List ℕ → Type 0
LastBefore interval next [] = Unit
LastBefore interval next (t ∷ times) = t + interval ≤ next

-- One exchange holds the permit at most, another is refused meanwhile, and the starts are apart.
pub record IsPaced (options : SdkHttpOptions) (y : System) : Type 0 where
  pub counted : y.sender.permits + length y.running ≡ 1
  pub spaced : Spaced options.minimum_interval y.starts
  pub last_before : LastBefore options.minimum_interval y.sender.next y.starts

Spaced-cons :
    (interval next now : ℕ) (times : List ℕ)
    → Spaced interval times
    → LastBefore interval next times
    → next ≤ now
    → Spaced interval (now ∷ times)
Spaced-cons interval next now [] s l h = tt
Spaced-cons interval next now (t ∷ times) s l h = (omega arith, s)

length-middle {ℓ} :
    {A : Type ℓ} (x : A) (front back : List A)
    → length (front ++ x ∷ back) ≡ length front + length back + 1
length-middle x front back = omega (arith, length-append front (x ∷ back))

begin_send-ok :
    (s t : Sender) → begin_send s ≡ ok t → (s.permits ≡ t.permits + 1) × (s.next ≡ t.next)
unfolding begin_send
begin_send-ok s t e = ground arith

Step-IsPaced :
    {options : SdkHttpOptions} {y z : System}
    → Step options y z
    → IsPaced options y
    → IsPaced options z
unfolding start_request end_send
Step-IsPaced {options} (begins y s e) p =
    let (permits, same) = begin_send-ok y.sender s e in
    record {
      counted = omega (arith, p.counted, permits);
      spaced = p.spaced;
      last_before =
          subst (λ (n : ℕ). LastBefore options.minimum_interval n y.starts) same p.last_before;
    }
Step-IsPaced {options} (starts y now front back e h) p = record {
  counted = omega (
    arith,
    p.counted,
    ap length e,
    length-middle waiting front back,
    length-middle sent front back,
  );
  spaced = Spaced-cons options.minimum_interval y.sender.next now y.starts p.spaced p.last_before h;
  last_before = omega arith;
}
Step-IsPaced (ends y x front back e) p = record {
  counted =
      omega (arith, p.counted, ap length e, length-middle x front back, length-append front back);
  spaced = p.spaced;
  last_before = p.last_before;
}

-- However the exchanges of one SDK client begin, start their requests, and end by an answer, an
-- error, a cancellation or the deadline: one of them holds the permit at most, and each request
-- starts at least `minimum_interval` after the one before it.
pub Reach-IsPaced :
    {options : SdkHttpOptions} {now : ℕ} {y : System} → Reach options now y → IsPaced options y
Reach-IsPaced start = record { counted = refl; spaced = tt; last_before = tt }
Reach-IsPaced (and_then r s) = Step-IsPaced s (Reach-IsPaced r)
