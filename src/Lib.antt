-- ===== src/Lib.antt =====
-- VoltMod, a framework for Counter-Strike 2 server plugins: a host in the game's server loads plugins
-- and gives them services (commands, menus, hooks, workshop addons) over the game's engine. Modelled
-- here is the logic of those services that decides, keeps books or reads untrusted text, translated
-- function by function; the engine, the system and the callbacks of plugins are parameters.
--
-- The parts, by the folder of their sources in src/ and include/VoltMod/, and the files here:
--   Core/Text/Strings.cpp: Strings. Numbers (ParseInt64, ParseUInt64, by std::from_chars written out),
--     Duration (ParseDuration), Chars (ToLower, Trim, ContainsIgnoreCase, IsNumeric), Parts (Join,
--     JoinNonEmpty, ReplaceAll, SubstituteTokens), Markup (EscapeHtml, QuoteConsoleArg), Cut
--     (TruncateUtf8, CopyToBuffer, DisplayNameOr).
--   Core/Slots: Slots and Slots/SteamId (SteamId.cpp). Commands and workshop sessions name players
--     by the ids that are read and printed here.
--   Core/Signals: Signals/Registry is CallbackRegistry.hpp, under every signal of the framework. A
--     callback is a function of the registry that runs it, so that one which adds, removes, clears or
--     dispatches is among them.
--   Commands: Commands/Syntax (CommandSyntax.cpp) cuts a line into arguments, Commands/Targeting
--     (Targeting.cpp) reads a target token and Commands/Targeting/Select filters the players by it.
--     Commands/Resolver (TargetResolver.cpp) asks them and the policy about the connected players,
--     Commands/Binding (ArgBinding.cpp) binds arguments with what it answers, and Commands/Router
--     (CommandRouter.cpp) keeps the commands, whose names it registers with the host, and runs one
--     (Commands/Router/Dispatch) once the policy lets it and the arguments are bound.
--   Players: Players/Roster (PlayerManager.cpp), the connected players by slot and by SteamID, with
--     handlers that may use the roster, and Players/Policy (Policy.cpp), who may do what to whom.
--   Engine/Memory: Memory/BytePattern (BytePattern.cpp), the search for a pattern with wildcards, by
--     the rarest byte of the pattern.
--   Host/Workshop: Workshop/AddonList is the comma-separated field of the signon state, Workshop/Queue
--     the requirements of plugins and, per client, the addons still to be downloaded. The host asks
--     the queue on each join message and puts what it answers into the field.
--   Host/Input and Host/Plugins: Host/ButtonPressMessage (the protobuf of a button press, from any
--     client), Host/PluginDependencies (which of the plugins installed are loaded), Host/CallbackList
--     (the callbacks of all plugins on one event of the host, which may edit the list from within),
--     Host/CommandNames and Host/PublishedInterfaces (what each plugin owns; the calls of all plugins
--     are a step relation, and what is kept of it is an invariant on what can be reached).
--   Core/Time: Time/Cooldown (Cooldown.hpp).
--   Hooks: Hooks/PendingConVarQueries, the questions to clients that wait for an answer.
--   Menu: Menu/MenuCursor, the row that a player's cursor is on, and Menu/MenuStack (MenuStack.cpp and
--     PendingCommit.cpp), the menus open in a slot, how a row is drawn (Rows), and the calls that run
--     callbacks of rows, with the commit that waits until a burst of presses is over (Acting).
--   Ui: Ui/WriteCache (WriteCache.cpp), what of a screen need not be sent again.
-- A file below one of these names is about the definitions of the file above it. Common holds lists,
-- integers, bytes and maps under the names the parts share; Tests runs the definitions at fixed inputs.
--
-- Names are the source's in snake_case, a type keeps its own. A struct is a record, an enum a data
-- type, a std::string the list of its bytes, an int or int64_t an integer (the wrap-around is
-- written out where it can occur: account numbers, varints, the cursor into a payload, durations,
-- cookies), an std::optional an Option, an error the reason the source gives. A menu call and a
-- cooldown give none where the source has no meaning: pop_back of no menus, the title of a null
-- menu, a difference of times that overflows. Code that writes to an object returns it. A
-- std::unordered_map is an association list, a std::map the list of its entries in order. Times that
-- the source holds as doubles or durations are of any type, with the comparisons a parameter.
--
-- Loops are structural recursion over the list or the count they run through. Some run on fuel: the
-- search for a pattern (the memory's length, as the offset grows each round), ReplaceAll (the
-- text's length, as it shrinks), the button press (the payload's length and one, as each field takes a byte) and
-- the spreading of refusals and of dependents (the names waiting and the plugins, as a plugin is
-- refused or found once).
--
-- Not modelled: the engine's interfaces and the memory of its entities, generated schema and events,
-- rendering of menus and screens, databases, HTTP, files and logs, threads, which only pass calls on;
-- and, for the time being, scheduling, the builders of menus and commands, and the loader of plugins.
pub mod Common
pub mod Strings
pub mod Commands
pub mod Slots
pub mod Ui
pub mod Workshop
pub mod Memory
pub mod Signals
mod Tests
pub mod Hooks
pub mod Host
pub mod Menu
pub mod Time
pub mod Players
