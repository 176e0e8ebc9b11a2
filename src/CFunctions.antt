-- ===== src/CFunctions.antt =====
-- parser/cfunc.h and parser/determineIncludes.cpp: the tables of the functions that C's headers declare,
-- and trimPrefix, which takes the name of an intrinsic apart.
pub mod Prefix
use llvm2c.Prelude.{
  ℕ, Bool, true, false, ◌&&◌, ◌||◌, if◌then◌else◌, leb, ◌==◌, Option, none, some, List, [], ◌∷◌,
  Text, codes, text_eq,
}
use llvm2c.TypeHandler.{substr, erase}

unfoldable pub c_functions : List Text
c_functions =
    codes "memcpy"
    ∷ codes "memmove"
    ∷ codes "memset"
    ∷ codes "sqrt"
    ∷ codes "powi"
    ∷ codes "sin"
    ∷ codes "cos"
    ∷ codes "pow"
    ∷ codes "exp"
    ∷ codes "exp2"
    ∷ codes "log"
    ∷ codes "log10"
    ∷ codes "log2"
    ∷ codes "fma"
    ∷ codes "fabs"
    ∷ codes "minnum"
    ∷ codes "maxnum"
    ∷ codes "minimum"
    ∷ codes "maximum"
    ∷ codes "copysign"
    ∷ codes "floor"
    ∷ codes "ceil"
    ∷ codes "trunc"
    ∷ codes "rint"
    ∷ codes "nearbyint"
    ∷ codes "round"
    ∷ codes "va_start"
    ∷ codes "va_end"
    ∷ codes "va_copy"
    ∷ []

unfoldable pub c_math : List Text
c_math =
    codes "sqrt"
    ∷ codes "powi"
    ∷ codes "sin"
    ∷ codes "cos"
    ∷ codes "pow"
    ∷ codes "exp"
    ∷ codes "exp2"
    ∷ codes "log"
    ∷ codes "log10"
    ∷ codes "log2"
    ∷ codes "fma"
    ∷ codes "fabs"
    ∷ codes "minnum"
    ∷ codes "maxnum"
    ∷ codes "minimum"
    ∷ codes "maximum"
    ∷ codes "copysign"
    ∷ codes "floor"
    ∷ codes "ceil"
    ∷ codes "trunc"
    ∷ codes "rint"
    ∷ codes "nearbyint"
    ∷ codes "round"
    ∷ []

unfoldable pub stdlib_functions : List Text
stdlib_functions =
    codes "atof"
    ∷ codes "atoi"
    ∷ codes "atol"
    ∷ codes "strtod"
    ∷ codes "strtol"
    ∷ codes "strtoul"
    ∷ codes "calloc"
    ∷ codes "free"
    ∷ codes "malloc"
    ∷ codes "realloc"
    ∷ codes "abort"
    ∷ codes "atexit"
    ∷ codes "exit"
    ∷ codes "getenv"
    ∷ codes "system"
    ∷ codes "bsearch"
    ∷ codes "qsort"
    ∷ codes "abs"
    ∷ codes "div"
    ∷ codes "labs"
    ∷ codes "ldiv"
    ∷ codes "rand"
    ∷ codes "srand"
    ∷ codes "mblen"
    ∷ codes "mbstowcs"
    ∷ codes "mbtowc"
    ∷ codes "wcstombs"
    ∷ codes "wctomb"
    ∷ codes "strtoll"
    ∷ codes "strtoull"
    ∷ codes "realpath"
    ∷ []

unfoldable pub string_functions : List Text
string_functions =
    codes "memchr"
    ∷ codes "memcmp"
    ∷ codes "memcpy"
    ∷ codes "memmove"
    ∷ codes "memset"
    ∷ codes "strcat"
    ∷ codes "strncat"
    ∷ codes "strchr"
    ∷ codes "strcmp"
    ∷ codes "strncmp"
    ∷ codes "strcoll"
    ∷ codes "strcpy"
    ∷ codes "strncpy"
    ∷ codes "strcspn"
    ∷ codes "strerror"
    ∷ codes "strlen"
    ∷ codes "strpbrk"
    ∷ codes "strrchr"
    ∷ codes "strspn"
    ∷ codes "strstr"
    ∷ codes "strtok"
    ∷ codes "strxfrm"
    ∷ codes "strsep"
    ∷ codes "strnlen"
    ∷ codes "strncasecmp"
    ∷ codes "strcasecmp"
    ∷ codes "stpcpy"
    ∷ codes "strdup"
    ∷ []

unfoldable pub stdio_functions : List Text
stdio_functions =
    codes "fclose"
    ∷ codes "clearerr"
    ∷ codes "feof"
    ∷ codes "ferror"
    ∷ codes "fflush"
    ∷ codes "fgetpos"
    ∷ codes "fopen"
    ∷ codes "fread"
    ∷ codes "freopen"
    ∷ codes "fseek"
    ∷ codes "fsetpos"
    ∷ codes "ftell"
    ∷ codes "fwrite"
    ∷ codes "remove"
    ∷ codes "rename"
    ∷ codes "rewind"
    ∷ codes "setbuf"
    ∷ codes "setvbuf"
    ∷ codes "tmpfile"
    ∷ codes "tmpnam"
    ∷ codes "fprintf"
    ∷ codes "sprintf"
    ∷ codes "vfprintf"
    ∷ codes "vsprintf"
    ∷ codes "fscanf"
    ∷ codes "scanf"
    ∷ codes "sscanf"
    ∷ codes "fgetc"
    ∷ codes "fgets"
    ∷ codes "fputc"
    ∷ codes "fputs"
    ∷ codes "getc"
    ∷ codes "getchar"
    ∷ codes "gets"
    ∷ codes "putc"
    ∷ codes "putchar"
    ∷ codes "puts"
    ∷ codes "ungetc"
    ∷ codes "perror"
    ∷ codes "snprintf"
    ∷ codes "vsnprintf"
    ∷ codes "printf"
    ∷ codes "pclose"
    ∷ codes "popen"
    ∷ codes "fileno"
    ∷ codes "fseeko"
    ∷ []

unfoldable pub pthread_functions : List Text
pthread_functions =
    codes "pthread_attr_destroy"
    ∷ codes "pthread_attr_getdetachstate"
    ∷ codes "pthread_attr_getguardsize"
    ∷ codes "pthread_attr_getinheritsched"
    ∷ codes "pthread_attr_getschedparam"
    ∷ codes "pthread_attr_getschedpolicy"
    ∷ codes "pthread_attr_getscope"
    ∷ codes "pthread_attr_getstackaddr"
    ∷ codes "pthread_attr_getstacksize"
    ∷ codes "pthread_attr_init"
    ∷ codes "pthread_attr_setdetachstate"
    ∷ codes "pthread_attr_setguardsize"
    ∷ codes "pthread_attr_setinheritsched"
    ∷ codes "pthread_attr_setschedparam"
    ∷ codes "pthread_attr_setschedpolicy"
    ∷ codes "pthread_attr_setscope"
    ∷ codes "pthread_attr_setstackaddr"
    ∷ codes "pthread_attr_setstacksize"
    ∷ codes "pthread_cancel"
    ∷ codes "pthread_cleanup_push"
    ∷ codes "pthread_cleanup_pop"
    ∷ codes "pthread_cond_broadcast"
    ∷ codes "pthread_cond_destroy"
    ∷ codes "pthread_cond_init"
    ∷ codes "pthread_cond_signal"
    ∷ codes "pthread_cond_timedwait"
    ∷ codes "pthread_cond_wait"
    ∷ codes "pthread_condattr_destroy"
    ∷ codes "pthread_condattr_getpshared"
    ∷ codes "pthread_condattr_init"
    ∷ codes "pthread_condattr_setpshared"
    ∷ codes "pthread_create"
    ∷ codes "pthread_detach"
    ∷ codes "pthread_equal"
    ∷ codes "pthread_exit"
    ∷ codes "pthread_getconcurrency"
    ∷ codes "pthread_getschedparam"
    ∷ codes "pthread_getspecific"
    ∷ codes "pthread_join"
    ∷ codes "pthread_key_create"
    ∷ codes "pthread_key_delete"
    ∷ codes "pthread_mutex_destroy"
    ∷ codes "pthread_mutex_getprioceiling"
    ∷ codes "pthread_mutex_init"
    ∷ codes "pthread_mutex_lock"
    ∷ codes "pthread_mutex_setprioceiling"
    ∷ codes "pthread_mutex_trylock"
    ∷ codes "pthread_mutex_unlock"
    ∷ codes "pthread_mutexattr_destroy"
    ∷ codes "pthread_mutexattr_getprioceiling"
    ∷ codes "pthread_mutexattr_getprotocol"
    ∷ codes "pthread_mutexattr_getpshared"
    ∷ codes "pthread_mutexattr_gettype"
    ∷ codes "pthread_mutexattr_init"
    ∷ codes "pthread_mutexattr_setprioceiling"
    ∷ codes "pthread_mutexattr_setprotocol"
    ∷ codes "pthread_mutexattr_setpshared"
    ∷ codes "pthread_mutexattr_settype"
    ∷ codes "pthread_once"
    ∷ codes "pthread_rwlock_destroy"
    ∷ codes "pthread_rwlock_init"
    ∷ codes "pthread_rwlock_rdlock"
    ∷ codes "pthread_rwlock_tryrdlock"
    ∷ codes "pthread_rwlock_trywrlock"
    ∷ codes "pthread_rwlock_unlock"
    ∷ codes "pthread_rwlock_wrlock"
    ∷ codes "pthread_rwlockattr_destroy"
    ∷ codes "pthread_rwlockattr_getpshared"
    ∷ codes "pthread_rwlockattr_init"
    ∷ codes "pthread_rwlockattr_setpshared"
    ∷ codes "pthread_self"
    ∷ codes "pthread_setcancelstate"
    ∷ codes "pthread_setcanceltype"
    ∷ codes "pthread_setconcurrency"
    ∷ codes "pthread_setschedparam"
    ∷ codes "pthread_setspecific"
    ∷ codes "pthread_testcancel"
    ∷ []

-- `find(func) != end()`
unfoldable pub member : Text → List Text → Bool
unfolding text_eq
member func [] = false
member func (x ∷ xs) = text_eq func x || member func xs

unfoldable pub is_c_func : Text → Bool
unfolding member c_functions
is_c_func func = member func c_functions

unfoldable pub is_stdlib_func : Text → Bool
unfolding member stdlib_functions
is_stdlib_func func = member func stdlib_functions

unfoldable pub is_string_func : Text → Bool
unfolding member string_functions
is_string_func func = member func string_functions

unfoldable pub is_stdio_func : Text → Bool
unfolding member stdio_functions
is_stdio_func func = member func stdio_functions

unfoldable pub is_pthread_func : Text → Bool
unfolding member pthread_functions
is_pthread_func func = member func pthread_functions

unfoldable pub is_c_math : Text → Bool
unfolding member c_math
is_c_math func = member func c_math

-- `\w`
abbrev pub is_word : ℕ → Bool
is_word c =
    (leb b'a' c && leb c b'z')
    || ((leb b'A' c && leb c b'Z') || ((leb b'0' c && leb c b'9') || (c == b'_')))

-- The longest match of `\w*`.
unfoldable pub take_word : Text → Text
take_word [] = []
take_word (c ∷ s) = let rest = take_word s in if is_word c then c ∷ rest else []

abbrev pub non_empty : Text → Option Text
non_empty [] = none
non_empty (c ∷ s) = some (c ∷ s)

-- The first group of `llvm\.(\w+)(\..+){0,1}`, matched at the beginning of the text.
unfoldable pub match_intrinsic : Text → Option Text
unfolding take_word text_eq
match_intrinsic s =
    if text_eq (substr 5 s) (codes "llvm.") then non_empty (take_word (erase 5 s)) else none

abbrev pub or_search : Option Text → Text → Text
or_search (some word) rest = word
or_search none rest = rest

-- trimPrefix: the search for the first match.
unfoldable pub trim_prefix : Text → Text
unfolding match_intrinsic
trim_prefix [] = []
trim_prefix (c ∷ s) = or_search (match_intrinsic (c ∷ s)) (trim_prefix s)
