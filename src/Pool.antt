-- ===== src/Pool.antt =====
-- src/pool.c: the accounting of the three memory pools. The blocks themselves are handed out by code
-- that the file takes over from Apache; a call of that code is an entry of `calls`.
pub mod Accounts
use goombaserver.Common.{
  ℕ, zero, suc, ◌+◌, ◌*◌, ◌<◌, Bool, true, false, not, ◌&&◌, ◌||◌, List, [], ◌∷◌, Bytes, length,
  ltb, ◌==◌, if◌then◌else◌,
}

-- The pool of what lives as long as the page, that of very temporary things, that of the expression
-- stack.
pub data PoolNum : Type 0 where
  page_pool token_pool stack_pool : PoolNum

abbrev pub same_pool : PoolNum → PoolNum → Bool
same_pool page_pool page_pool = true
same_pool token_pool token_pool = true
same_pool stack_pool stack_pool = true
same_pool _ _ = false

pub data Call : Type 0 where
  make_sub_pool clear_pool destroy_pool : PoolNum → Call
  palloc : PoolNum → ℕ → Call

-- `exits` counts the calls of Error and Exit behind it; `calls` holds the newest call first.
pub record Pools : Type 0 where
  pub made : PoolNum → Bool
  pub size : PoolNum → ℕ
  pub max_data_space : ℕ
  pub already_over : Bool
  pub exits : ℕ
  pub calls : List Call

-- The default for the number of kilobytes is a parameter of the build.
unfoldable pub init_pool : ℕ → Pools
init_pool default_max = record {
  made = λ n. false;
  size = λ n. 0;
  max_data_space = default_max * 1024;
  already_over = false;
  exits = 0;
  calls = [];
}

abbrev pub update : {A : Type 0} → PoolNum → A → (PoolNum → A) → PoolNum → A
update n a f k = if same_pool n k then a else f k

-- A pool is made when it is first used.
unfoldable pub ensure_pool : PoolNum → Pools → Pools
ensure_pool n p =
    if p.made n
    then p
    else record p { made = update n true p.made; calls = make_sub_pool n ∷ p.calls }

-- The bytes are added, and the first time that a pool is over the limit the page is given up.
unfoldable pub account : PoolNum → ℕ → Pools → Pools
account n bytes p =
    let size = p.size n + bytes in
    let p' = record p { size = update n size p.size } in
    if ltb p.max_data_space size && not p.already_over
    then record p' { already_over = true; exits = p.exits + 1 }
    else p'

unfoldable pub pool_alloc : PoolNum → ℕ → Pools → Pools
unfolding ensure_pool account
pool_alloc n bytes p =
    let p' = account n bytes (ensure_pool n p) in record p' { calls = palloc n bytes ∷ p'.calls }

-- `pstrdup` of the pool allocates the bytes of the text and its NUL.
unfoldable pub pool_strdup : PoolNum → Bytes → Pools → Pools
unfolding ensure_pool account
pool_strdup n str p =
    let l = length str in
    let p' = account n (l + 1) (ensure_pool n p) in
    record p' { calls = palloc n (l + 1) ∷ p'.calls }

unfoldable pub pool_clear : PoolNum → Pools → Pools
pool_clear n p =
    if same_pool n page_pool || (p.size n == 0)
    then p
    else (let p' = record p { size = update n 0 p.size } in
        if p.made n then record p' { calls = clear_pool n ∷ p.calls } else p')

-- The pointer to the pool is kept.
unfoldable pub pool_free : PoolNum → Pools → Pools
pool_free n p =
    if same_pool n page_pool || (p.size n == 0)
    then p
    else record p { size = update n 0 p.size; calls = destroy_pool n ∷ p.calls }
