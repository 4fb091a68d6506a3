-- ===== src/Rules/Table.antt =====
-- src/command_rules.cpp, `CommandRules::Default`: the arguments of its calls of `allow`, in the
-- order of the source, and the array of the names that it hands to `deny`.
use redis_proxy.Base.{ℕ, Bool, true, false, List, [], ◌∷◌, codes}

-- The arguments of one call of `allow`.
pub record AllowCall : Type 0 where
  pub command : List ℕ
  pub min_argc : ℕ
  pub max_argc : ℕ
  pub read : Bool
  pub write : Bool

abbrev pub uint16_max : ℕ
uint16_max = 65535

-- `allow(name, lo, hi, true, false)` and `allow(name, lo, hi, false, true)`.
abbrev reading : List ℕ → ℕ → ℕ → AllowCall
reading c lo hi = record { command = c; min_argc = lo; max_argc = hi; read = true; write = false }

abbrev writing : List ℕ → ℕ → ℕ → AllowCall
writing c lo hi = record { command = c; min_argc = lo; max_argc = hi; read = false; write = true }

abbrev pub allowed_calls : List AllowCall
allowed_calls =
    reading (codes "PING") 1 2
    ∷ reading (codes "GET") 2 2
    ∷ reading (codes "MGET") 2 uint16_max
    ∷ writing (codes "SET") 3 uint16_max
    ∷ writing (codes "MSET") 3 uint16_max
    ∷ writing (codes "MSETNX") 3 uint16_max
    ∷ writing (codes "GETSET") 3 3
    ∷ writing (codes "SETNX") 3 3
    ∷ writing (codes "SETEX") 4 4
    ∷ writing (codes "PSETEX") 4 4
    ∷ reading (codes "GETEX") 2 uint16_max
    ∷ writing (codes "GETDEL") 2 2
    ∷ writing (codes "APPEND") 3 3
    ∷ reading (codes "STRLEN") 2 2
    ∷ reading (codes "GETRANGE") 4 4
    ∷ writing (codes "SETRANGE") 4 4
    ∷ writing (codes "INCR") 2 2
    ∷ writing (codes "DECR") 2 2
    ∷ writing (codes "INCRBY") 3 3
    ∷ writing (codes "DECRBY") 3 3
    ∷ writing (codes "INCRBYFLOAT") 3 3
    ∷ writing (codes "SADD") 3 uint16_max
    ∷ writing (codes "SREM") 3 uint16_max
    ∷ reading (codes "SMEMBERS") 2 2
    ∷ reading (codes "SISMEMBER") 3 3
    ∷ reading (codes "SMISMEMBER") 3 uint16_max
    ∷ reading (codes "SCARD") 2 2
    ∷ writing (codes "SPOP") 2 3
    ∷ reading (codes "SRANDMEMBER") 2 3
    ∷ writing (codes "SMOVE") 4 4
    ∷ reading (codes "SINTER") 2 uint16_max
    ∷ writing (codes "SINTERSTORE") 3 uint16_max
    ∷ reading (codes "SUNION") 2 uint16_max
    ∷ writing (codes "SUNIONSTORE") 3 uint16_max
    ∷ reading (codes "SDIFF") 2 uint16_max
    ∷ writing (codes "SDIFFSTORE") 3 uint16_max
    ∷ writing (codes "LPUSH") 3 uint16_max
    ∷ writing (codes "RPUSH") 3 uint16_max
    ∷ writing (codes "LPUSHX") 3 uint16_max
    ∷ writing (codes "RPUSHX") 3 uint16_max
    ∷ writing (codes "LPOP") 2 3
    ∷ writing (codes "RPOP") 2 3
    ∷ reading (codes "LLEN") 2 2
    ∷ reading (codes "LRANGE") 4 4
    ∷ reading (codes "LINDEX") 3 3
    ∷ writing (codes "LSET") 4 4
    ∷ writing (codes "LINSERT") 5 5
    ∷ writing (codes "LREM") 4 4
    ∷ writing (codes "LTRIM") 4 4
    ∷ reading (codes "LPOS") 3 uint16_max
    ∷ writing (codes "LMOVE") 5 5
    ∷ writing (codes "RPOPLPUSH") 3 3
    ∷ writing (codes "HSET") 4 uint16_max
    ∷ reading (codes "HGET") 3 3
    ∷ writing (codes "HMSET") 4 uint16_max
    ∷ reading (codes "HMGET") 3 uint16_max
    ∷ reading (codes "HGETALL") 2 2
    ∷ writing (codes "HDEL") 3 uint16_max
    ∷ reading (codes "HEXISTS") 3 3
    ∷ reading (codes "HKEYS") 2 2
    ∷ reading (codes "HVALS") 2 2
    ∷ reading (codes "HLEN") 2 2
    ∷ writing (codes "HINCRBY") 4 4
    ∷ writing (codes "HINCRBYFLOAT") 4 4
    ∷ writing (codes "HSETNX") 4 4
    ∷ reading (codes "HSTRLEN") 3 3
    ∷ reading (codes "HRANDFIELD") 2 3
    ∷ writing (codes "ZADD") 4 uint16_max
    ∷ writing (codes "ZREM") 3 uint16_max
    ∷ reading (codes "ZSCORE") 3 3
    ∷ reading (codes "ZMSCORE") 3 uint16_max
    ∷ writing (codes "ZINCRBY") 4 4
    ∷ reading (codes "ZCARD") 2 2
    ∷ reading (codes "ZCOUNT") 4 4
    ∷ reading (codes "ZLEXCOUNT") 4 4
    ∷ reading (codes "ZRANGE") 4 uint16_max
    ∷ reading (codes "ZREVRANGE") 4 uint16_max
    ∷ reading (codes "ZRANGEBYSCORE") 4 uint16_max
    ∷ reading (codes "ZREVRANGEBYSCORE") 4 uint16_max
    ∷ reading (codes "ZRANGEBYLEX") 4 uint16_max
    ∷ reading (codes "ZREVRANGEBYLEX") 4 uint16_max
    ∷ writing (codes "ZRANGESTORE") 5 uint16_max
    ∷ reading (codes "ZRANK") 3 3
    ∷ reading (codes "ZREVRANK") 3 3
    ∷ writing (codes "ZREMRANGEBYRANK") 4 4
    ∷ writing (codes "ZREMRANGEBYSCORE") 4 4
    ∷ writing (codes "ZREMRANGEBYLEX") 4 4
    ∷ writing (codes "ZPOPMIN") 2 3
    ∷ writing (codes "ZPOPMAX") 2 3
    ∷ reading (codes "ZINTER") 3 uint16_max
    ∷ writing (codes "ZINTERSTORE") 3 uint16_max
    ∷ reading (codes "ZUNION") 3 uint16_max
    ∷ writing (codes "ZUNIONSTORE") 3 uint16_max
    ∷ reading (codes "ZDIFF") 3 uint16_max
    ∷ writing (codes "ZDIFFSTORE") 3 uint16_max
    ∷ reading (codes "ZRANDMEMBER") 2 3
    ∷ writing (codes "EXPIREAT") 3 4
    ∷ reading (codes "PTTL") 2 2
    ∷ writing (codes "PERSIST") 2 2
    ∷ reading (codes "TYPE") 2 2
    ∷ writing (codes "RENAME") 3 3
    ∷ writing (codes "RENAMENX") 3 3
    ∷ writing (codes "UNLINK") 2 uint16_max
    ∷ writing (codes "TOUCH") 2 uint16_max
    ∷ writing (codes "DEL") 2 uint16_max
    ∷ reading (codes "EXISTS") 2 uint16_max
    ∷ writing (codes "EXPIRE") 3 4
    ∷ reading (codes "TTL") 2 2
    ∷ []

abbrev pub denied : List (List ℕ)
denied =
    codes "AUTH"
    ∷ codes "SELECT"
    ∷ codes "CLIENT"
    ∷ codes "HELLO"
    ∷ codes "MULTI"
    ∷ codes "EXEC"
    ∷ codes "DISCARD"
    ∷ codes "WATCH"
    ∷ codes "UNWATCH"
    ∷ codes "SUBSCRIBE"
    ∷ codes "PSUBSCRIBE"
    ∷ codes "SSUBSCRIBE"
    ∷ codes "UNSUBSCRIBE"
    ∷ codes "PUNSUBSCRIBE"
    ∷ codes "SUNSUBSCRIBE"
    ∷ codes "PUBLISH"
    ∷ codes "PUBSUB"
    ∷ codes "SPUBLISH"
    ∷ codes "BLPOP"
    ∷ codes "BRPOP"
    ∷ codes "BLMOVE"
    ∷ codes "BLMPOP"
    ∷ codes "BZPOPMIN"
    ∷ codes "BZPOPMAX"
    ∷ codes "BZMPOP"
    ∷ codes "BRPOPLPUSH"
    ∷ codes "XREAD"
    ∷ codes "XREADGROUP"
    ∷ codes "DEBUG"
    ∷ codes "MODULE"
    ∷ codes "CONFIG"
    ∷ codes "SHUTDOWN"
    ∷ codes "SAVE"
    ∷ codes "BGSAVE"
    ∷ codes "BGREWRITEAOF"
    ∷ codes "FLUSHDB"
    ∷ codes "FLUSHALL"
    ∷ codes "KEYS"
    ∷ codes "SCAN"
    ∷ codes "SCRIPT"
    ∷ codes "EVAL"
    ∷ codes "EVALSHA"
    ∷ codes "FUNCTION"
    ∷ codes "ACL"
    ∷ codes "MONITOR"
    ∷ codes "SYNC"
    ∷ codes "PSYNC"
    ∷ []
