-- ===== src/Socket/Reliable.antt =====
-- What `AsioSocket` relies on: a connection that delivers, in order, the bytes written to it.
use mathlib.Core.List.{append-nil, append_assoc}
use quintses.Common.{ℕ, ◌≡◌, refl, sym, ◌∙◌, ap, List, [], ◌++◌, length}
use quintses.Socket.{Io, SocketWrapper, ok, pure, ◌>>=◌, ◌>>◌}

-- The documented behaviour of `boost::asio::read` and `boost::asio::write` on an open TCP stream.
-- `pending` are the bytes written to the connection and not yet read.
pub record IsReliable (s : SocketWrapper) : Type 1 where
  pub pending : s.Conn → List ℕ
  pub IsOpen : s.Conn → Type 0
  pub write_open :
      (bs : List ℕ) (c : s.Conn)
      → IsOpen c
      → (d : s.Conn) × (s.write bs c ≡ ok (tt, d)) × (pending d ≡ pending c ++ bs) × IsOpen d
  pub read_pending :
      (bs rest : List ℕ) (c : s.Conn)
      → IsOpen c
      → pending c ≡ bs ++ rest
      → (d : s.Conn) × (s.read (length bs) c ≡ ok (bs, d)) × (pending d ≡ rest) × IsOpen d

module _ {s : SocketWrapper} (r : IsReliable s) where
  open s use {Conn}
  open r use {pending, IsOpen}

  -- On every open connection `m` succeeds and adds `bs`.
  pub record Sends (m : Io Conn (Unit {0})) (bs : List ℕ) : Type 0 where
    pub run :
        (c : Conn)
        → IsOpen c
        → (d : Conn) × (m c ≡ ok (tt, d)) × (pending d ≡ pending c ++ bs) × IsOpen d

  -- On every open connection where `bs` are next, `m` takes them and returns `a`.
  pub record Receives {A : Type 0} (m : Io Conn A) (bs : List ℕ) (a : A) : Type 0 where
    pub run :
        (rest : List ℕ) (c : Conn)
        → IsOpen c
        → pending c ≡ bs ++ rest
        → (d : Conn) × (m c ≡ ok (a, d)) × (pending d ≡ rest) × IsOpen d

  pub Sends-write : (bs : List ℕ) → Sends (s.write bs) bs
  Sends-write bs = record { run = r.write_open bs }

  pub Sends-pure : Sends (pure tt) []
  Sends-pure = record { run = λ c o. (c, refl, sym (append-nil (pending c)), o) }

  pub Sends->> :
      {m n : Io Conn (Unit {0})} {bs cs : List ℕ}
      → Sends m bs
      → Sends n cs
      → Sends (m >> n) (bs ++ cs)
  Sends->> {n} {bs} {cs} hm hn = record {
    run = λ c o.
        let (d, e, p, o') = hm.run c o in
        let (d', e', p', o'') = hn.run d o' in
        (d', rw e e', p' ∙ ap (λ t. t ++ cs) p ∙ append_assoc (pending c) bs cs, o'');
  }

  pub Receives-read : (k : ℕ) (bs : List ℕ) → length bs ≡ k → Receives (s.read k) bs bs
  Receives-read k bs h = record {
    run = λ rest c o p. let (d, e, q, o') = r.read_pending bs rest c o p in (d, rw (← h) e, q, o');
  }

  pub Receives-pure : {A : Type 0} (a : A) → Receives (pure a) [] a
  Receives-pure a = record { run = λ rest c o p. (c, refl, p, o) }

  pub Receives->>= :
      {A B : Type 0} {m : Io Conn A} (k : A → Io Conn B) {bs cs : List ℕ} {a : A} {b : B}
      → Receives m bs a
      → Receives (k a) cs b
      → Receives (m >>= k) (bs ++ cs) b
  Receives->>= k {bs} {cs} hm hk = record {
    run = λ rest c o p.
        let (d, e, q, o') = hm.run (cs ++ rest) c o (p ∙ append_assoc bs cs rest) in
        let (d', e', q', o'') = hk.run rest d o' q in (d', rw e e', q', o'');
  }

  pub Receives-map :
      {A B : Type 0} {m : Io Conn A} (f : A → B) {bs : List ℕ} {a : A}
      → Receives m bs a
      → Receives (m >>= λ x. pure (f x)) bs (f a)
  Receives-map f {bs} {a} h =
      rw (append-nil bs) at (Receives->>= (λ x. pure (f x)) h (Receives-pure (f a)))
