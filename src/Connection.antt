-- ===== src/Connection.antt =====
-- The connection to a drive: src/KineticAutoConnection.cc. What the client library, the sockets and
-- the clock do is a parameter over a state `W` of the world; reconnects run on the background
-- threads of Background. The lock makes each of its sections one step.
pub mod Limited
use kineticio.Prelude.{
  ℕ, zero, suc, ◌+◌, ◌-◌, ◌*◌, ◌/◌, ◌%◌, Bool, true, false, not, ◌&&◌, List, [], ◌∷◌, Option, none,
  some, ltb, ◌==◌, if◌then◌else◌, Result, ok, throw, Error, not_connected,
}
use kineticio.Background.{Handler, try_run}

-- The fields of a KineticAutoConnection that change, the file descriptors that the listener watches
-- for it, and whether the initial connect has been made. Times are in milliseconds, the rate limit
-- is in seconds.
pub record AutoConnection : Type 0 where
  pub ratelimit : ℕ
  pub connection : Option ℕ
  pub healthy : Bool
  pub fd : ℕ
  pub timestamp : ℕ
  pub connected_once : Bool
  pub watched : List ℕ
  pub bg : Handler (Unit {0})

-- The constructor, with the background threads that it makes.
unfoldable pub new_connection : ℕ → Handler (Unit {0}) → ℕ → AutoConnection
new_connection ratelimit bg now = record {
  ratelimit = ratelimit;
  connection = none;
  healthy = false;
  fd = 0;
  timestamp = now;
  connected_once = false;
  watched = [];
  bg = bg;
}

unfoldable pub unwatch : ℕ → List ℕ → List ℕ
unwatch fd [] = []
unwatch fd (x ∷ xs) = let rest = unwatch fd xs in if x == fd then rest else x ∷ rest

unfoldable pub same_connection : Option ℕ → Option ℕ → Bool
same_connection none none = true
same_connection (some a) (some b) = a == b
same_connection _ _ = false

-- if (fd) unsubscribe
unfoldable pub stop_watching : AutoConnection → AutoConnection
unfolding unwatch
stop_watching c = if c.fd == 0 then c else record c { watched = unwatch c.fd c.watched; fd = 0 }

-- setError
unfoldable pub set_error : Option ℕ → AutoConnection → AutoConnection
unfolding same_connection stop_watching
set_error error_connection c =
    if not c.healthy
    then c
    else if not (same_connection c.connection error_connection)
    then c
    else record (stop_watching c) { healthy = false }

-- The part of get after the initial connect, and whether a reconnect was scheduled.
unfoldable pub get_connection : ℕ → AutoConnection → Result (Option ℕ) × Bool × AutoConnection
unfolding try_run
get_connection now c =
    if c.healthy
    then (ok c.connection, false, c)
    else if ltb c.ratelimit ((now - c.timestamp) / 1000)
    then (let (accepted, bg) = try_run tt c.bg in
        (
          throw not_connected,
          accepted,
          if accepted then record c { bg = bg; timestamp = now } else c,
        ))
    else (throw not_connected, false, c)

-- The client library and the sockets.
pub record Network (W : Type 0) : Type 0 where
  -- NewThreadsafeNonblockingConnection to one of the two addresses
  pub new_nonblocking : ℕ → W → Option ℕ × W
  -- NoOp, Run with the descriptor that it sets, the callback's done and ok, select
  pub no_op : ℕ → W → W
  pub run : ℕ → W → Bool × ℕ × W
  pub done : ℕ → W → Bool
  pub is_success : ℕ → W → Bool
  pub select : ℕ → W → Bool × W
  -- the random generator, the listener's subscribe and the clock
  pub random : W → ℕ × W
  pub subscribe : ℕ → W → Result (Unit {0}) × W
  pub now : W → ℕ

module _ {W : Type 0} (net : Network W) where
  -- The connection to the primary address, or else to the other.
  unfoldable pub dial : W → Option ℕ × W
  dial w =
      let (r, w') = net.random w in
      let primary = if r % 2 == 0 then 1 else 0 in
      let (first, w'') = net.new_nonblocking primary w' in
      elim first [ some con ↦ (some con, w'') | none ↦ net.new_nonblocking (1 - primary) w'' ]

  -- The loop that asks for the descriptor; `none` if the fuel runs out.
  unfoldable pub request_fd : ℕ → ℕ → W → Option (ℕ × W)
  request_fd zero con w = none
  request_fd (suc fuel) con w =
      let (alive, fd, w') = net.run con (net.no_op con w) in
      let rest = request_fd fuel con w' in if alive && (fd == 0) then rest else some (fd, w')

  -- The loop that waits for the answer to the no-op.
  unfoldable pub await_no_op : ℕ → ℕ → ℕ → W → Option W
  await_no_op zero con fd w = none
  await_no_op (suc fuel) con fd w =
      let (alive, _, w') = net.run con w in
      let (ready, w'') = net.select fd w' in
      let rest = await_no_op fuel con fd w'' in
      if alive && not (net.done con w') then (if ready then rest else some w'') else some w'

  -- The attempt: the descriptor plus one, or 0, and the connection.
  unfoldable pub validate : ℕ → Option ℕ × W → Option (ℕ × Option ℕ × W)
  unfolding request_fd await_no_op
  validate fuel (none, w) = some (0, none, w)
  validate fuel (some con, w) = elim (request_fd fuel con w) [
    | none ↦ none
    | some (fd, w') ↦ elim (await_no_op fuel con fd w') [
      | none ↦ none
      | some w'' ↦ some (if net.is_success con w'' then fd else 0, some con, w'')
    ]
  ]

  -- The locked part of connect.
  unfoldable pub take_over :
      ℕ → Option ℕ → W → AutoConnection → Result (Unit {0}) × AutoConnection × W
  take_over zero con w c = (ok tt, c, w)
  take_over (suc fd) con w c =
      let (r, w') = net.subscribe fd w in
      elim r [
        | throw e ↦ (throw e, c, w')
        | ok _ ↦ (
          ok tt,
          record c {
            watched = fd ∷ c.watched;
            fd = fd;
            connection = con;
            healthy = true;
            timestamp = net.now w';
          },
          w',
        )
      ]

  -- connect; `none` if the fuel runs out.
  unfoldable pub connect : ℕ → W → AutoConnection → Option (Result (Unit {0}) × AutoConnection × W)
  unfolding dial validate take_over
  connect fuel w c = elim (validate fuel (dial w)) [
    | none ↦ none
    | some (fd, con, w') ↦ some (take_over fd con w' c)
  ]

  -- The rest of get, where the initial connect may have thrown: then the next call makes it again.
  unfoldable pub after_connect :
      Result (Unit {0}) × AutoConnection × W → Result (Option ℕ) × AutoConnection × W
  unfolding get_connection
  after_connect (throw e, c, w) = (throw e, c, w)
  after_connect (ok _, c, w) =
      let (r, _, c') = get_connection (net.now w) (record c { connected_once = true }) in (r, c', w)

  -- get
  unfoldable pub get : ℕ → W → AutoConnection → Option (Result (Option ℕ) × AutoConnection × W)
  unfolding connect after_connect
  get fuel w c =
      let first = connect fuel w c in
      if c.connected_once
      then some (after_connect (ok tt, c, w))
      else elim first [ none ↦ none | some r ↦ some (after_connect r) ]
